-- ===== src/Register/Params.antt =====
-- lwm2m_register.c: the parameters of an update.
use lynx_lwm2m.Base.{
  ℕ, ◌<◌, ◌≡◌, refl, true, false, not, List, [], ◌++◌, length, ℤ, ◌==ℤ◌, ok, arith, Bool, ◌∙◌,
  append-nil, Bool-cases, inl, inr, if◌then◌else◌,
}
use lynx_lwm2m.Model.{Instance, Server, Context}
use lynx_lwm2m.Attribute.{server_instance_of}
use lynx_lwm2m.Text.{codes, into_buffer}
use lynx_lwm2m.Text.Same.{same_text_refl}
use lynx_lwm2m.Register.{get_lifetime, get_binding_mode, serialize_update_params, update_param}

param_fits :
    (same : Bool) (name : List ℕ)
    → length name < 4990
    → into_buffer 5000 (update_param true (not same) (codes "ep=") name ++ [])
      ≡ (if same then ok [] else ok (codes "ep=" ++ name))
unfolding into_buffer update_param
param_fits true name short = refl
param_fits false name short = rw (append-nil name) (ground arith)

-- The server with the data that it was told of at a registration or an update.
abbrev pub told : Context → Server → (binding : List ℕ) → (lifetime : ℤ) → (text : List ℕ) → Server
told context server binding lifetime text = record server {
  last_update_data = record {
    endpoint_client_name = context.endpoint_client_name;
    binding_mode = binding;
    lifetime = lifetime;
    object_and_instances = text;
  };
}

module _ (context : Context) (server : Server) (i : Instance) (lifetime : ℤ) (binding : List ℕ)
    (found : server_instance_of context server ≡ ok i) (has_lifetime : get_lifetime i ≡ ok lifetime)
    (has_binding : get_binding_mode i ≡ ok binding) where
  found_told :
      (other : ℤ) (text : List ℕ)
      → server_instance_of context (told context server binding other text) ≡ ok i
  unfolding server_instance_of
  found_told other text = found

  params_told :
      (other : ℤ) (text : List ℕ)
      → serialize_update_params context (told context server binding other text)
        ≡ into_buffer 5000 (
            update_param true (not (lifetime ==ℤ other)) (codes "ep=") context.endpoint_client_name
            ++ [])
  unfolding serialize_update_params update_param
  params_told other text =
      rw
        (
          found_told other text,
          has_lifetime,
          has_binding,
          same_text_refl context.endpoint_client_name,
          same_text_refl binding,
        )
        refl

  -- Where the server's instance has a lifetime and a binding mode: a server that was told of the data
  -- as they are is sent no parameter; one that was told of another lifetime is sent the name of the
  -- client, and the new lifetime is not in the text.
  pub update_params_lem :
      (other : ℤ) (text : List ℕ)
      → length context.endpoint_client_name < 4990
      → serialize_update_params context (told context server binding other text)
        ≡ (if lifetime ==ℤ other then ok [] else ok (codes "ep=" ++ context.endpoint_client_name))
  update_params_lem other text short =
      params_told other text ∙ (elim (Bool-cases (lifetime ==ℤ other)) [
        | inl same ↦ rw same (param_fits true context.endpoint_client_name short)
        | inr changed ↦ rw changed (param_fits false context.endpoint_client_name short)
      ])
