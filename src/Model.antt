-- ===== src/Model.antt =====
-- The structures of lwm2m_object.h, lwm2m.h, lwm2m_attribute.h and scheduler.h.
-- A pointer to a parent is left out: a function that follows one takes the parent as an argument.
-- An `int` is an integer, a byte a number below 256, a `double` or `float` its bit pattern.
use lynx_lwm2m.Base.{ℕ, Bool, Option, List, ℤ, pos}
use lynx_lwm2m.Items.{Items}

-- lwm2m_type
pub data Kind : Type 0 where
  integer double string opaque boolean no_kind link : Kind

pub record Link : Type 0 where
  pub object_id : ℤ
  pub instance_id : ℤ

-- lwm2m_value: the member that was written last. A double is its eight bytes in memory, and the
-- target of a `char *` its bytes, without the final zero of a string.
pub data Value : Type 0 where
  double_value : List ℕ → Value
  int_value : ℤ → Value
  bool_value : Bool → Value
  link_value : Link → Value
  opaque_value : List ℕ → Value
  string_value : List ℕ → Value

-- The part of lwm2m_resource that an instance of a multiple resource uses too. `freed` tells that
-- the memory was given back while something still points to it.
pub record Cell : Type 0 where
  pub id : ℤ
  pub kind : Kind
  pub value : Option Value
  pub length : ℤ
  pub freed : Bool
  -- whether its memory is that of a resource that was parsed from a message
  pub parsed : Bool

pub record Attributes : Type 0 where
  pub pmin : Option ℤ
  pub pmax : Option ℤ
  pub gt : Option ℕ
  pub lt : Option ℕ
  pub stp : Option ℕ
  pub dim : Option ℤ

-- A pointer to a scheduler_task.
abbrev pub TaskPtr : Type 0
TaskPtr = ℕ

-- execute_param: `int_value` and `float_value` are not set by `param_new`.
pub record ExecuteParam : Type 0 where
  pub key : ℤ
  pub int_value : Option ℤ
  pub float_value : Option ℕ
  pub string_value : Option (List ℕ)

-- lwm2m_resource. A callback is taken to read and write the value of its resource only.
pub record Resource : Type 0 where
  pub cell : Cell
  pub open cell use *
  pub multiple : Bool
  pub mandatory : Bool
  pub operations : ℕ
  pub instances : Option (Items Cell)
  pub attributes : Items Attributes
  pub observers : Items TaskPtr
  pub read_callback : Option (Cell → Cell)
  pub write_callback : Option (Cell → Cell)
  pub execute_callback : Option (Items ExecuteParam → Cell → Cell)

pub record Instance : Type 0 where
  pub id : ℤ
  pub resources : Items Resource
  pub attributes : Items Attributes
  pub observers : Items TaskPtr

pub record Object : Type 0 where
  pub id : ℤ
  pub instances : Items Instance
  pub attributes : Items Attributes
  pub observers : Items TaskPtr
  pub multiple : Bool
  pub mandatory : Bool
  pub resource_def : List Resource

-- What a task calls, with the arguments `arg1` to `arg3` of the source.
pub data TaskFunction : Type 0 where
  notify_object : (object_id : ℤ) → TaskFunction
  notify_instance : (object_id instance_id : ℤ) → TaskFunction
  notify_resource : (object_id instance_id resource_id : ℤ) → TaskFunction
  update : TaskFunction

-- scheduler_task; a `time_t` is an integer.
pub record Task : Type 0 where
  pub id : ℤ
  pub short_server_id : ℤ
  pub period : ℤ
  pub waking_time : ℤ
  pub last_waking_time : ℤ
  pub function : TaskFunction
  pub server : ℤ
  pub token : List ℕ

-- A call of a task's function with its last argument, the identifier of an instance or NULL.
pub record Call : Type 0 where
  pub task : TaskPtr
  pub arg : Option ℤ

-- lwm2m_scheduler, with the memory of all tasks: `scheduler->l` and the observers of the object
-- tree point into it. `calls` are the calls made so far, the latest first.
pub record Scheduler : Type 0 where
  pub l : Items TaskPtr
  pub stop : Bool
  pub heap : TaskPtr → Option Task
  pub next_task : TaskPtr
  pub calls : List Call

-- lwm2m_state
pub data State : Type 0 where
  started waiting_for_bootstrap bootstrapped registering registered : State

-- lwm2m_register_data
pub record RegisterData : Type 0 where
  pub endpoint_client_name : List ℕ
  pub binding_mode : List ℕ
  pub lifetime : ℤ
  pub object_and_instances : List ℕ

-- lwm2m_server. `server_instance` is the identifier of the server's instance of the object
-- SERVER_OBJECT_ID; `server_mutex` tells whether the mutex is free.
pub record Server : Type 0 where
  pub short_server_id : ℤ
  pub name : List ℕ
  pub server_instance : ℤ
  pub last_update_data : RegisterData
  pub pending_requests : ℤ
  pub register_state : ℤ
  pub server_mutex : Bool

-- A message that was handed to the MQTT library: its topic and its bytes.
pub record Published : Type 0 where
  pub topic : List ℕ
  pub message : List ℕ

-- lwm2m_context. `published` and `subscriptions` are what the MQTT library was asked to send and
-- to subscribe to so far, the latest first.
pub record Context : Type 0 where
  pub servers : Items Server
  pub object_tree : Items Object
  pub state : State
  pub has_smartcard : Bool
  pub is_bootstrap_ready : Bool
  pub client_id : List ℕ
  pub endpoint_client_name : List ℕ
  pub scheduler : Scheduler
  pub registered_servers_num : ℤ
  pub update_tasks : Items TaskPtr
  pub object_tree_lock : ℕ
  pub published : List Published
  pub subscriptions : List (List ℕ)

-- lwm2m_response
pub record Response : Type 0 where
  pub content_type : ℕ
  pub response_code : ℕ
  pub payload : List ℕ

-- The constants of lwm2m.h, lwm2m_object.h and lwm2m_transport.h.
abbrev pub op_read : ℕ
op_read = 1

abbrev pub op_write : ℕ
op_write = 2

abbrev pub op_execute : ℕ
op_execute = 4

abbrev pub op_delete : ℕ
op_delete = 8

abbrev pub op_create : ℕ
op_create = 16

abbrev pub access_control_object_id : ℤ
access_control_object_id = pos 2

abbrev pub code_created : ℕ
code_created = 201

abbrev pub code_deleted : ℕ
code_deleted = 202

abbrev pub code_changed : ℕ
code_changed = 204

abbrev pub code_content : ℕ
code_content = 205

abbrev pub code_unauthorized : ℕ
code_unauthorized = 401

abbrev pub code_method_not_allowed : ℕ
code_method_not_allowed = 405
