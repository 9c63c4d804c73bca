-- ===== src/Lib.antt =====
-- A model of lynx-lwm2m, a client of the protocol LWM2M over MQTT, and what it does.
--
-- The client keeps a tree of objects, their instances and their resources (src/lwm2m_object.c) in
-- linked lists with integer keys (src/list.c). A message arrives in src/lwm2m_transport_mqtt.c; its
-- topic names the server, an operation and the part of the tree that src/lwm2m_transport.c looks up.
-- The operation, in src/lwm2m_device_management.c, src/lwm2m_information_reporting.c or
-- src/lwm2m_attribute.c, waits for the lock of the tree, asks src/lwm2m_access_control.c for the
-- rights, parses its payload (src/lwm2m_parser_deserialize.c), merges it into the tree, tells the
-- observers, whose tasks the scheduler (src/scheduler.c) keeps, and answers with a payload
-- (src/lwm2m_parser_serialize.c). Before that src/lwm2m_client.c builds the tree,
-- src/lwm2m_bootstrap.c has it filled and src/lwm2m_register.c registers on the servers.
--
-- Base: the shared names, the Boolean tests, lists and the C type `int` over the native numbers,
--   and `Run`, what a run of C code comes to: a result, a fault (NULL, a foreign or freed address is
--   followed, a buffer is overrun), blocked (a semaphore at 0 is waited for) or out of fuel.
-- Items: src/list.c. `Items` is the list without its guard, `Guarded` the list with it. `Lookup`,
--   `Store` and `Guard` prove.
-- Model: the structures of include/lwm2m_object.h, lwm2m.h, lwm2m_attribute.h and scheduler.h.
-- Libc: the functions of the C library and the conversions of floating point, as parameters.
-- Cell: the functions `__set_value_*` of src/lwm2m_object.c on one resource or resource instance.
-- Tlv: the parsers and serializers. `Header` and `Value` hold one header or value, `Parse` and
--   `Serialize` the loops over resources, instances and objects.
-- Scheduler: src/scheduler.c. A call of a task's function is entered in the list `calls`.
-- Attribute: src/lwm2m_attribute.c and `parse_attributes`.
-- AccessControl: src/lwm2m_access_control.c.
-- Object, Object.Merge: src/lwm2m_object.c; new and deleted instances, merging and notifying.
-- Reporting: src/lwm2m_information_reporting.c; who is notified, observing and cancelling.
-- Management, Management.Read, Management.Create: src/lwm2m_device_management.c.
-- Text: src/lwm2m.c and the texts of the C library: `%d`, `atoi`, `strtok`, `strcmp`, buffers.
-- Wire: topics, requests and responses as texts and bytes, of src/lwm2m_transport.c and
--   src/lwm2m_transport_mqtt.c.
-- Transport: the same files; sending and subscribing. `Handle` holds the handlers, `Receive` the way
--   of a message that arrives; `Frames` follows the list of servers through the handlers.
-- Discover: src/lwm2m_parser_serialize_discover.c and the discover operations of
--   src/lwm2m_attribute.c.
-- Reporting.Send: the functions of src/lwm2m_information_reporting.c that send a notification.
-- Register, Register.Accounts: src/lwm2m_register.c and src/lwm2m_parser_serialize_register.c.
-- Bootstrap, Bootstrap.Operations: src/lwm2m_bootstrap.c.
-- Client: src/lwm2m_client.c.
-- Tests: concrete values and the theorems at them.
--
-- A `char` is a byte below 256, read as signed where the source's type is `char`. An `int` is an
-- integer; it wraps at 32 bits where the parser adds up bytes. A `double` and a `float` are their
-- bytes. A pointer into the tree is the identifiers on the way to it, a pointer to a task an address
-- of a heap. The loops of the parsers over a payload run on fuel: fuel above the number of elements
-- is enough for a list of resource instances, and no fuel for a payload that sends the
-- position back. Every other loop is by recursion on its list.
--
-- A string is the memory at its address, its zero byte included. A payload ends with its last byte:
-- nothing puts a zero byte behind it, and a function of the C library that reads on is a fault, as is
-- a copy that runs over its block. `lremove` without the guard is what the function does to a list
-- that is not empty; on an empty one it keeps the guard, as `guarded_lremove` has it. A resource
-- instance has a mark that tells whether its memory is that of a parsed resource. `%s` prints NULL as
-- the GNU C library does.
--
-- A message that the client sends and a topic that it subscribes to are entered in the context. A
-- thread that waits for a signal is given, as a list, what the other threads do until each signal. The
-- key of an element of a list of instances is taken to be the identifier of the instance when a changed
-- instance is put back; a bootstrap write makes the only exception, on an object of one instance.
--
-- Not modelled: the allocation of memory that succeeds, the size of the buffers of the TLV and text
-- serializers, the Paho library and its callbacks (start_mqtt is an argument of the start), the calls
-- of `free` on messages that were sent, printed output, and the pointer that the registration data
-- keep into the binding mode of the tree. `example.c` and `test/test.c` are programs that use the
-- client; include/openssl and include/paho are headers of other projects.
pub mod Base
pub mod Items
pub mod Model
pub mod Cell
pub mod Libc
pub mod Tlv
pub mod Scheduler
pub mod Attribute
pub mod AccessControl
pub mod Object
pub mod Reporting
pub mod Management
pub mod Tests
pub mod Text
pub mod Wire
pub mod Discover
pub mod Transport
pub mod Register
pub mod Bootstrap
pub mod Client
