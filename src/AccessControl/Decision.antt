-- ===== src/AccessControl/Decision.antt =====
-- lwm2m_access_control.c: what the checks decide.
use lynx_lwm2m.Base.{
  ℕ, ◌≡◌, Bool, true, false, Option, none, some, ◌==◌, ◌==ℤ◌, ℤ, pos, Run, ok, ◌>>=◌, arith,
}
use lynx_lwm2m.Items.{Items, lfind}
use lynx_lwm2m.Model.{Cell, Instance, Object, Server, Context, op_create}
use lynx_lwm2m.AccessControl.{
  has_flag, int_of, int_resource, aco_for_instance, aco_for_object, acl_instances,
  check_instance_access_control, check_create_object_access_control,
}

-- The flags that the access control lists give a server: its own entry, else all to the owner,
-- else the default entry, else none.
unfoldable pub decision : Option Cell → (is_owner : Bool) → Option Cell → ℕ → Run Bool
decision (some own) is_owner default operation = do
  flags ← int_of own
  ok (has_flag flags operation)
decision none true default operation = ok true
decision none false (some default) operation = do
  flags ← int_of default
  ok (has_flag flags operation)
decision none false none operation = ok false

module _ (context : Context) (server : Server) (object : Object) where
  -- Where the context has not exactly one server, and the instance has an access control instance
  -- with an ACL and an owner, the check decides by the server's own ACL entry if there is one,
  -- else grants everything to the owner, else decides by the entry of server 0, else denies.
  pub check_instance_access_control-decision :
      (i aco_instance : Instance) (acl : Items Cell) (owner : ℤ) (operation : ℕ)
      → (context.servers.size == 1) ≡ false
      → aco_for_instance context object i ≡ ok (some aco_instance)
      → acl_instances aco_instance ≡ ok acl
      → int_resource aco_instance (pos 3) ≡ ok owner
      → check_instance_access_control context server object i operation
        ≡ decision
            (lfind acl server.short_server_id)
            (owner ==ℤ server.short_server_id)
            (lfind acl (pos 0))
            operation
  unfolding check_instance_access_control decision
  check_instance_access_control-decision i aco_instance acl owner operation many aco acl_eq
        owner_eq =
      ground arith

  -- The CREATE check decides as the instance check does for a server that is not the owner:
  -- by the server's own ACL entry of the object's access control instance, else by the entry
  -- of server 0, else it denies; without an access control instance it denies.
  check_create_object_access_control-decision :
      (found : Option Instance)
      → aco_for_object context object ≡ ok found
      → check_create_object_access_control context server object ≡ (elim found [
        | none ↦ ok false
        | some aco_instance ↦ acl_instances aco_instance >>= (λ acl.
            decision (lfind acl server.short_server_id) false (lfind acl (pos 0)) op_create)
      ])
  unfolding check_create_object_access_control decision
  check_create_object_access_control-decision found aco = ground arith
