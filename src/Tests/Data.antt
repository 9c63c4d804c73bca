-- ===== src/Tests/Data.antt =====
-- Concrete parameters, resources, tasks and contexts.
use lynx_lwm2m.Base.{ℕ, true, false, none, some, List, [], ◌∷◌, length, ℤ, pos, ◌==◌, if◌then◌else◌}
use lynx_lwm2m.Items.{Items, list_new, ladd}
use lynx_lwm2m.Model.{
  integer, string, int_value, string_value, Cell, Resource, Instance, Object, Task, notify_resource,
  Scheduler, Server, Context, registered,
}
use lynx_lwm2m.Libc.{Libc}
use lynx_lwm2m.Text.{codes}
use lynx_lwm2m.Transport.{Surroundings}
use lynx_lwm2m.Base.{ok, ◌++◌}

abbrev pub libc : Libc
libc = record {
  atof = λ s. ok s;
  atof_float = λ s. length s;
  strtok_link = λ s. ok s;
  float_to_double = λ s. s;
  garbage = int_value (pos 0);
  print_double = λ d. d;
  print_float = λ f. [];
  float_lt_int = λ f n. false;
  int_lt_float = λ n f. false;
  float_lt_double = λ f d. false;
  double_lt_float = λ d f. false;
  float_lt = λ f g. false;
  double_step = λ a b. 0;
}

abbrev pub two_keys : Items ℕ
two_keys = ladd (ladd list_new (pos 4) 40) (pos 7) 70

abbrev pub int_cell : ℤ → ℤ → Cell
int_cell id n = record {
  id = id;
  kind = integer;
  value = some (int_value n);
  length = pos 0;
  freed = false;
  parsed = false;
}

abbrev pub string_cell : ℤ → List ℕ → Cell
string_cell id s = record {
  id = id;
  kind = string;
  value = some (string_value (s ++ 0 ∷ []));
  length = pos (length s);
  freed = false;
  parsed = false;
}

abbrev pub single : Cell → (operations : ℕ) → Resource
single cell operations = record {
  cell = cell;
  multiple = false;
  mandatory = false;
  operations = operations;
  instances = none;
  attributes = list_new;
  observers = list_new;
  read_callback = none;
  write_callback = none;
  execute_callback = none;
}

abbrev pub several : Cell → Items Cell → Resource
several cell instances = record (single cell 3) { multiple = true; instances = some instances }

abbrev pub instance_of : ℤ → Items Resource → Instance
instance_of id resources = record {
  id = id;
  resources = resources;
  attributes = list_new;
  observers = list_new;
}

abbrev pub object_of : ℤ → Items Instance → List Resource → Object
object_of id instances definitions = record {
  id = id;
  instances = instances;
  attributes = list_new;
  observers = list_new;
  multiple = true;
  mandatory = false;
  resource_def = definitions;
}

abbrev pub names : Cell
names = string_cell (pos 0) []

-- An object with a multiple resource of strings.
abbrev pub names_object : Object
names_object = object_of (pos 9) list_new (several names list_new ∷ [])

-- An object with one instance of a resource that can be read and written, and one that can not.
abbrev pub level : Resource
level = single (int_cell (pos 0) (pos 5)) 3

abbrev pub secret : Resource
secret = single (int_cell (pos 1) (pos 6)) 0

abbrev pub meter : Instance
meter = instance_of (pos 1) (ladd (ladd list_new (pos 0) level) (pos 1) secret)

abbrev pub meters : Object
meters = object_of (pos 5) (ladd list_new (pos 1) meter) (level ∷ secret ∷ [])

-- The access control of the meter: server 10 owns it and may read, the default is nothing.
abbrev pub acl_of : ℤ → Items Cell → Instance
acl_of instance_id acl = instance_of (pos 0) (
    ladd
      (ladd
        (ladd (ladd list_new (pos 0) (single (int_cell (pos 0) (pos 5)) 1)) (pos 1)
          (single (int_cell (pos 1) instance_id) 1))
        (pos 2) (several (int_cell (pos 2) (pos 0)) acl))
      (pos 3) (single (int_cell (pos 3) (pos 10)) 1))

abbrev pub acl : Items Cell
acl = ladd (ladd list_new (pos 10) (int_cell (pos 10) (pos 1))) (pos 0) (int_cell (pos 0) (pos 0))

abbrev pub meter_acl : Instance
meter_acl = acl_of (pos 1) acl

abbrev pub aco : Object
aco = object_of (pos 2) (ladd list_new (pos 0) meter_acl) []

abbrev pub server : ℤ → Server
server id = record {
  short_server_id = id;
  name = codes "main";
  server_instance = pos 0;
  last_update_data = record {
    endpoint_client_name = codes "lamp";
    binding_mode = codes "U";
    lifetime = pos 60;
    object_and_instances = [];
  };
  pending_requests = pos 0;
  register_state = pos 1;
  server_mutex = true;
}

-- Tasks at the addresses 0 and 1; the first is due at 100, the second is not.
abbrev pub task_at : ℤ → ℤ → Task
task_at id waking_time = record {
  id = id;
  short_server_id = pos 10;
  period = pos 30;
  waking_time = waking_time;
  last_waking_time = pos 0;
  function = notify_resource (pos 5) (pos 1) (pos 0);
  server = pos 10;
  token = [];
}

abbrev pub idle : Scheduler
idle = record { l = list_new; stop = false; heap = λ q. none; next_task = 0; calls = [] }

abbrev pub busy : Scheduler
busy = record {
  l = ladd (ladd list_new (pos 1) 0) (pos 2) 1;
  stop = false;
  heap = λ q.
      if q == 0
      then some (task_at (pos 1) (pos 90))
      else if q == 1
      then some (task_at (pos 2) (pos 120))
      else none;
  next_task = 2;
  calls = [];
}

abbrev pub context_of : ℕ → Items Object → Context
context_of lock tree = record {
  servers = ladd (ladd list_new (pos 10) (server (pos 10))) (pos 20) (server (pos 20));
  object_tree = tree;
  state = registered;
  has_smartcard = false;
  is_bootstrap_ready = false;
  client_id = codes "c1";
  endpoint_client_name = codes "lamp";
  scheduler = idle;
  registered_servers_num = pos 0;
  update_tasks = list_new;
  object_tree_lock = lock;
  published = [];
  subscriptions = [];
}

abbrev pub tree : Items Object
tree = ladd (ladd list_new (pos 2) aco) (pos 5) meters

abbrev pub context : Context
context = context_of 1 tree

abbrev pub surroundings : Surroundings
surroundings = record {
  libc = libc;
  fuel = 9;
  now = pos 100;
  rand = λ i. i;
  task_id = pos 3;
  unset = names;
  unset_time = pos 0;
  stale = 0 ∷ [];
}

-- The server's instance of the standard server object: a lifetime and a binding mode.
abbrev pub account : Instance
account = instance_of (pos 0) (
    ladd
      (ladd (ladd list_new (pos 0) (single (int_cell (pos 0) (pos 10)) 1)) (pos 1)
        (single (int_cell (pos 1) (pos 60)) 3))
      (pos 7) (single (string_cell (pos 7) (codes "U")) 3))

abbrev pub accounts : Object
accounts = object_of (pos 1) (ladd list_new (pos 0) account) []

-- A client with one server, whose mutex and lock are free.
abbrev pub client : Context
client = record (context_of 1 (ladd tree (pos 1) accounts)) {
  servers = ladd list_new (pos 10) (server (pos 10));
}
