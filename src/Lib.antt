-- ===== src/Lib.antt =====
-- A verification library of django-event-bus, the events between Django services and the remote
-- resources they expose. Paths without a folder of their own are below src/django_event_bus.
--
-- The program. A service emits an `EventEnvelope` (src/django_event_bus/envelope.py) that a broker
-- (brokers/base.py and its backends) carries as JSON (serializers.py) to the services that listen.
-- A worker reads envelopes from `listen` and gives each to `dispatch` (dispatcher.py), which runs
-- the receivers that registry.py holds for its type, and then calls the broker's `ack` or `fail`.
-- A service exposes models under names (remote/resources.py), which a view (remote/views.py) and a
-- gRPC server (remote/grpc_server.py) answer for, behind a rate limit and an authentication; a
-- field of another service (remote/fields.py) reads them through a cache and a transport
-- (remote/transports), and events invalidate what is cached (remote/invalidation.py).
--
-- The files.
--   Prelude: shared names, Boolean tests, equality as an instance, lists and dictionaries.
--   Exceptions: exceptions.py; `Result` for code that may raise, and `Exec` for code that may
--     raise and changes a state, which stays changed beside the error.
--   Platform: JSON values, hashable keys, decimal numbers and `datetime`; what the code calls of
--     `json` and `datetime` without looking inside is the record `Platform`.
--   Envelope: `EventEnvelope.to_dict` and `from_dict`, `JSONEventSerializer.dumps` and `loads`.
--   Registry: `register`, `get_receivers`, `registered_event_types`, `clear`.
--   Settings: settings.py; `Section` is the cache of a section and the heap of its dicts.
--   Signals: signals.py; Django's transactions are the record `Connection`.
--   Dispatcher: `dispatch`, over any broker and any receivers.
--   Brokers: `BaseBroker` as a record of operations over a state.
--   Brokers/Retry: the loop that the networked brokers publish with.
--   Brokers/LocMem: brokers/locmem.py; `Shared` is the state of the class, `_subscribers` and
--     `_queues`, and an operation that holds the lock is one step.
--   Brokers/Kafka: brokers/kafka.py; `State` is `_pending`, whether `_consumer` is set, and the
--     calls made to the client library. The client library with the cluster is the record
--     `Client`: each of its calls is answered by any function of all the calls made so far.
--   Brokers/Redis: brokers/redis_streams.py in the same way; `State` is `_pending` and the calls
--     made. The transaction of `fail` is one call.
--   Brokers/Rabbit: brokers/rabbitmq.py in the same way; `State` is `_connection`, `_channel`,
--     `_consumers`, `_pending` and the calls made.
--   Brokers/Factory: `get_broker` and `reset_broker` of brokers/utils.py, as the steps of threads
--     that interleave. Factory/Loading: `load_broker`.
--   Brokers/Pending: the `pop` of the dict `_pending` that the three brokers with a server keep.
--   Remote/Auth: remote/auth.py; a backend is a function of the `Authorization` header. PyJWT is a
--     parameter.
--   Remote/RateLimit: remote/ratelimit.py, over Django's cache as a parameter.
--   Remote/Views: remote/views.py; `Site` is the cache and the audit log (remote/audit.py), and
--     `Service` what the view looks up.
--   Remote/Resources: remote/resources.py; `Serializer` is a serializer class with its `Meta`, and
--     Resources/Registry the registry, `expose_resource` and `registry_resolver`.
--   Remote/Grpc: remote/grpc_server.py; `Rpc` is the cache, the audit log and the status of an
--     aborted call. Grpc/Server: `serve`, as the list of the calls that set up a server, and
--     `Pipeline`, what the gRPC library does with interceptors. Grpc/Command:
--     management/commands/remote_grpc_server.py.
--   Remote/Transports: remote/transports/utils.py and base.py; Transports/Http and Transports/Grpc
--     are http.py and grpc.py beside them, each with a `Wire` that records what was sent, opened
--     and closed. The answers of the peers are any function of what was sent.
--   Remote/Fields: remote/fields.py with remote/cache.py; `World` is the cache and what the
--     transport was asked for. Fields/Accessors: the descriptor and the field class.
--   Remote/Objects: remote/objects.py, the attributes of a `RemoteObject`. Objects/Identity: its
--     `__eq__` and `__hash__`, over Python's `==` in Platform/Comparing.
--   Remote/Invalidation: remote/invalidation.py; `Wiring` is `_wired` and the registry.
--   Worker: management/commands/eventbus_worker.py, `handle` over any broker.
--   Examples: the theorems at concrete inputs.
--
-- Bounds and fuel. The fuel of the brokers is the number of rounds that the endless loop of a
-- worker is followed for: `listen` and `consume` are given it, and every theorem about them holds
-- for any number. The retry loop is bounded by the code's own PUBLISH_RETRIES + 1. The loop that
-- reads a body in Transports/Http is given one turn more than the bytes that it lets through, which
-- is enough because each turn reads a byte at least (Http/Bounded proves it), and `rstrip` as many
-- as the text has bytes. The depth of the stack in Remote/Objects is any number. Numbers of Python
-- are unbounded, so no width is written out; times are whole milliseconds, and whole seconds in
-- Remote.
--
-- Not modelled: log lines, Django's own machinery and the generated protocol code, which hold no
-- logic of the program; the signal handlers of the gRPC server; the example services; the
-- `__repr__` of a remote object; and floats among the JSON values.
pub mod Prelude
pub mod Exceptions
pub mod Platform
pub mod Envelope
pub mod Registry
pub mod Settings
pub mod Signals
pub mod Brokers
pub mod Dispatcher
pub mod Remote
pub mod Worker
pub mod Examples
