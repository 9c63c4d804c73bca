-- ===== src/Bootstrap.antt =====
-- lwm2m_bootstrap.c: filling the object tree before the registration. A freed instance stays in the
-- model where the source leaves a pointer to it: its cells are marked as freed.
pub mod Frees
pub mod Operations
pub mod Missing
pub mod Outcome
use lynx_lwm2m.Base.{
  ℕ, zero, suc, Bool, true, false, Option, none, some, List, [], ◌∷◌, if◌then◌else◌, ℤ, pos, negsuc,
  Run, ok, fault, blocked, ◌>>=◌, deref, is_some,
}
use lynx_lwm2m.Items.{Items, lremove}
use lynx_lwm2m.Model.{
  Cell, Attributes, Resource, Instance, Object, State, started, waiting_for_bootstrap, bootstrapped,
  registering, registered, Context,
}
use lynx_lwm2m.Object.{put_object}
use lynx_lwm2m.Transport.{
  Surroundings, publish_connected, generate_token, perform_bootstrap_request,
}
use lynx_lwm2m.Wire.{Topic}
use lynx_lwm2m.Text.{codes}
use lynx_lwm2m.Register.{has_server_instances}

-- A pointer that `free` may be called on.
pub data Pointer : Type 0 where
  null : Pointer
  live : Pointer
  dangling : Pointer

unfoldable pub free : Pointer → Run Pointer
free null = ok null
free live = ok dangling
free dangling = fault

abbrev pointer_of {ℓ} : {A : Type ℓ} → Option A → Pointer
pointer_of none = null
pointer_of (some a) = live

-- `if (attribute->field != NULL) free(attribute->pmin);`
free_pmin_if : {A : Type 0} → Option A → Pointer → Run Pointer
unfolding free
free_pmin_if none pmin = ok pmin
free_pmin_if (some a) pmin = free pmin

-- Each of the six lines frees `pmin`; the result is what becomes of that pointer.
unfoldable pub free_attribute : Attributes → Run Pointer
unfolding free_pmin_if
free_attribute attribute = do
  pmin ← free_pmin_if attribute.pmin (pointer_of attribute.pmin)
  pmin ← free_pmin_if attribute.pmax pmin
  pmin ← free_pmin_if attribute.dim pmin
  pmin ← free_pmin_if attribute.stp pmin
  pmin ← free_pmin_if attribute.lt pmin
  free_pmin_if attribute.gt pmin

unfoldable pub free_attributes : List (ℤ × Attributes) → Run Pointer
unfolding free_attribute
free_attributes [] = ok null
free_attributes ((key, attribute) ∷ next) = do pmin ← free_attribute attribute; free_attributes next

abbrev freed_cell : Cell → Cell
freed_cell cell = record cell { freed = true }

unfoldable pub freed_cells : List (ℤ × Cell) → List (ℤ × Cell)
freed_cells [] = []
freed_cells ((key, cell) ∷ next) = (key, freed_cell cell) ∷ freed_cells next

abbrev freed_instances : Option (Items Cell) → Option (Items Cell)
freed_instances none = none
freed_instances (some instances) = some (record instances { first = freed_cells instances.first })

-- `__free_parsed_resource` on a resource of the tree.
unfoldable pub freed_resource : Resource → Resource
unfolding freed_cells
freed_resource resource = record resource {
  cell = freed_cell (resource.cell);
  instances = if resource.multiple then freed_instances resource.instances else resource.instances;
}

unfoldable pub freed_resources : List (ℤ × Resource) → List (ℤ × Resource)
unfolding freed_resource
freed_resources [] = []
freed_resources ((key, resource) ∷ next) = (key, freed_resource resource) ∷ freed_resources next

unfoldable pub free_instance : Instance → Run Instance
unfolding free_attributes freed_resources
free_instance i = do
  pmin ← free_attributes i.attributes.first
  ok (record i { resources = record (i.resources) { first = freed_resources i.resources.first } })

unfoldable pub free_instances : List (ℤ × Instance) → Run (List (ℤ × Instance))
unfolding free_instance
free_instances [] = ok []
free_instances ((key, i) ∷ next) = do
  freed ← free_instance i
  rest ← free_instances next
  ok ((key, freed) ∷ rest)

delete_all_loop : List (ℤ × Object) → Run (List (ℤ × Object))
unfolding free_instances
delete_all_loop [] = ok []
delete_all_loop ((key, object) ∷ next) = do
  instances ← free_instances object.instances.first
  rest ← delete_all_loop next
  ok ((key, record object { instances = record (object.instances) { first = instances } }) ∷ rest)

-- The instances stay in their lists.
unfoldable pub on_bootstrap_delete_all : Context → Run Context
unfolding delete_all_loop
on_bootstrap_delete_all context = do
  objects ← delete_all_loop context.object_tree.first
  ok (record context { object_tree = record (context.object_tree) { first = objects } })

-- `object` is the one that the instance points to.
unfoldable pub on_bootstrap_delete : Context → Object → Instance → Run Context
unfolding free_instance put_object
on_bootstrap_delete context object i = do
  freed ← free_instance i
  ok (put_object context (record object { instances = lremove object.instances i.id }))

unfoldable pub on_bootstrap_finish : Context → Context
on_bootstrap_finish context = record context { state = bootstrapped }

abbrev pub is_bootstrapped : State → Bool
is_bootstrapped bootstrapped = true
is_bootstrapped _ = false

-- The states that end the wait for the bootstrap.
abbrev pub is_awaited : State → Bool
is_awaited started = true
is_awaited waiting_for_bootstrap = true
is_awaited _ = false

-- What the other threads do until each signal; without a further signal the thread waits for ever.
unfoldable pub wait_for_server_bootstrap : List (Context → Run Context) → Context → Run Context
wait_for_server_bootstrap [] context = if is_awaited context.state then blocked else ok context
wait_for_server_bootstrap (others ∷ next) context =
    let rest = λ (context : Context). wait_for_server_bootstrap next context in
    if is_awaited context.state then (do context ← others context; rest context) else ok context

-- The topic of the client's own request. Its `server_id` is NULL, which `%s` of the GNU C library
-- prints as "(null)".
abbrev pub bootstrap_topic : Surroundings → Context → Topic
bootstrap_topic env context = record {
  operation = codes "rd";
  type = codes "req";
  client_id = context.client_id;
  server_id = codes "(null)";
  token = generate_token env.rand;
  object_id = negsuc 0;
  instance_id = negsuc 0;
  resource_id = negsuc 0;
}

unfoldable pub initiate_bootstrap : Surroundings → Context → Run Context
unfolding perform_bootstrap_request generate_token
initiate_bootstrap env context =
    perform_bootstrap_request env.stale context (bootstrap_topic env context)
      (record { content_type = 0; payload = [] })

-- A callback returns a number, 0 where it has succeeded.
abbrev Callback : Type 0
Callback = Option (Context → Context × ℕ)

-- A callback that provides the instances; the state tells whether it did.
unfoldable pub provide : (Context → Context × ℕ) → Context → Run Context
unfolding has_server_instances
provide callback context = provided (callback context)
  where
    provided : Context × ℕ → Run Context
    provided (context, zero) = do
      found ← has_server_instances context
      ok (if found then record context { state = bootstrapped } else context)
    provided (context, suc n) = ok context

unfoldable pub provide_factory : Callback → Context → Run Context
unfolding provide
provide_factory none context = ok context
provide_factory (some callback) context = provide callback context

unfoldable pub provide_instances : (smartcard factory : Callback) → Context → Run Context
unfolding provide provide_factory
provide_instances none factory context = provide_factory factory context
provide_instances (some callback) factory context =
    if context.has_smartcard then provide callback context else provide_factory factory context

-- The second part of `lwm2m_bootstrap`, where the first wait has ended in another state.
unfoldable pub client_initiated :
    Surroundings → List (Context → Run Context) → Context → Run (Context × ℤ)
unfolding initiate_bootstrap wait_for_server_bootstrap
client_initiated env others context = do
  context ← initiate_bootstrap env context
  context ← wait_for_server_bootstrap others (record context { state = waiting_for_bootstrap })
  ok (context, if is_bootstrapped context.state then pos 0 else negsuc 0)

unfoldable pub lwm2m_bootstrap :
    Surroundings
    → (smartcard factory : Callback) → (server_steps client_steps : List (Context → Run Context))
    → Context
    → Run (Context × ℤ)
unfolding provide_instances wait_for_server_bootstrap client_initiated
lwm2m_bootstrap env smartcard factory server_steps client_steps context = do
  context ←
      provide_instances smartcard factory
        (record context { state = started; is_bootstrap_ready = false })
  context ← publish_connected context
  context ← wait_for_server_bootstrap server_steps context
  if is_bootstrapped context.state
      then ok (context, pos 0)
      else client_initiated env client_steps context
