-- ===== src/Provisioner/Service.antt =====
-- The service of provisioner.go. A method takes the state and gives its answer with the new state.
-- `reserve` is the part of `Provision` under the mutex.
use fox_fleet.Prelude.{
  ℕ, zero, suc, String, List, [], ◌∷◌, Bool, true, false, not, leb, ◌==◌, if◌then◌else◌, length, ok,
  err, Error, wrap, message, cap_reached, port_exhausted,
}
use fox_fleet.Plugins.{InstanceConfig, ProvisionRequest}
use fox_fleet.Config.{InjectParams, cloud_env_vars, validate_secrets, is_empty}
use fox_fleet.Registry.Rows.{Instance}
use fox_fleet.Registry.Instances
use fox_fleet.Machine.{
  pure, ◌>>=◌, ◌>>◌, guard, lift, wrapping, ask, attempt, act, note, ignoring, reads, writes,
}
use fox_fleet.Provisioner.Defs.{
  Outside, P, Provisioned, Request, Settings, allocate_port, destroys, has_id, provisions,
  registry_retries, removes_data,
}

-- What the critical section hands on.
pub record Reservation : Type 0 where
  pub now : ℕ
  pub inst : Instance

module _ {W : Type 0} (o : Outside W) (c : Settings) where
  abbrev pub data_dir_of : Request → String
  data_dir_of req = o.join (c.data_root ∷ "instances" ∷ req.instance_id ∷ [])

  unfoldable pub skillset_name : Request → P W String
  skillset_name req =
      if is_empty req.skillset_path
      then pure ""
      else wrapping ("provisioner: validate skillset" ∷ [])
          (attempt (o.load_skillset req.skillset_path))

  -- The row that reserves the place.
  abbrev pub reserved : Request → String → ℕ → ℕ → String → String → String → Instance
  reserved req name port now query_token plane_auth_token instance_password = record {
    id = req.instance_id;
    image_digest = req.image.digest;
    port = port;
    data_dir = data_dir_of req;
    status = "provisioning";
    created_at = now;
    skillset_name = name;
    principal_role = req.principal_role;
    query_token = query_token;
    plane_auth_token = plane_auth_token;
    instance_password = instance_password;
  }

  -- From `s.mu.Lock()` to the last `s.mu.Unlock()`.
  unfoldable pub reserve : Request → String → P W Reservation
  reserve req name = do
    instances ← wrapping ("provisioner: list instances" ∷ []) (reads o.sql_error Instances.list)
    guard (not (leb c.max_instances (length instances))) cap_reached
    guard (not (has_id req.instance_id instances))
        (message ("provisioner: instance" ∷ req.instance_id ∷ "already exists" ∷ []))
    used ← wrapping ("provisioner: used ports" ∷ []) (reads o.sql_error Instances.used_ports)
    let port = allocate_port c used
    guard (not (port == 0)) port_exhausted
    now ← ask o.now
    query_token ← wrapping ("provisioner" ∷ []) (attempt o.random_token)
    plane_auth_token ←
        wrapping ("provisioner: generate plane auth token" ∷ []) (attempt o.random_token)
    instance_pwd ←
        wrapping ("provisioner: generate instance password" ∷ []) (attempt o.random_token)
    let inst = reserved req name port now query_token plane_auth_token instance_pwd
    wrapping ("provisioner: reserve instance" ∷ [])
        (writes o.sql_error λ fault rows. Instances.create o.sha256_hex fault now inst rows)
    pure (record { now = now; inst = inst })

  -- Errors of the rollback are dropped.
  abbrev destroy_if : String → Bool → P W (Unit {0})
  destroy_if id false = pure tt
  destroy_if id true = do note (destroys id); ignoring (act (o.plugin.destroy id))

  unfoldable pub rollback : String → String → Bool → P W (Unit {0})
  rollback id data_dir destroy_container = do
    destroy_if id destroy_container
    note (removes_data data_dir)
    ignoring (act (o.remove_all data_dir))
    ignoring (writes o.sql_error λ fault rows. Instances.delete fault id rows)

  -- A step after the reservation: its error undoes what has been done.
  abbrev pub or_undo : {A : Type 0} → String → String → Bool → List String → P W A → P W A
  or_undo id data_dir destroy_container words m s =
      let (a, s') = m s in
      elim a [
        | ok x ↦ (ok x, s')
        | err e ↦ (err (wrap words e), (rollback id data_dir destroy_container s').1)
      ]

  -- The skillset file is copied into the data directory, and found there by the instance.
  unfoldable pub copy_skillset : Request → String → P W String
  copy_skillset req data_dir = if is_empty req.skillset_path then pure req.skillset_path else (do
    src ←
        or_undo req.instance_id data_dir false ("provisioner: read skillset" ∷ [])
          (attempt (o.read_file req.skillset_path))
    or_undo req.instance_id data_dir false ("provisioner: copy skillset" ∷ [])
        (act (o.write_file (o.join (data_dir ∷ "skillset.yaml" ∷ [])) src))
    pure "/data/skillset.yaml")

  -- Tries until one succeeds; the pause between two tries is not modelled.
  unfoldable pub retry_update_status : ℕ → Error → String → String → P W (Unit {0})
  retry_update_status zero last id status s = (err last, s)
  retry_update_status (suc k) last id status s =
      let (a, s') =
        writes o.sql_error (λ fault rows. Instances.update_status fault id status rows) s in
      elim a [ ok _ ↦ (ok tt, s') | err e ↦ retry_update_status k e id status s' ]

  abbrev pub instance_config : Request → Reservation → String → InstanceConfig
  instance_config req r skillset_path = record {
    auth_secret = r.inst.plane_auth_token;
    instance_password = r.inst.instance_password;
    proxy_endpoint = req.proxy_endpoint;
    capability_flags = req.capability_flags;
    env = req.env;
    skillset_path = skillset_path;
    data_plane_url = req.data_plane_url;
    principal_role = req.principal_role;
  }

  abbrev pub provision_request : Request → Reservation → String → ProvisionRequest
  provision_request req r skillset_path = record {
    instance_id = req.instance_id;
    image = req.image;
    config = instance_config req r skillset_path;
    port = r.inst.port;
    data_dir = r.inst.data_dir;
    cloud_env = cloud_env_vars req.cloud;
  }

  abbrev pub inject_params : Request → Reservation → String → InjectParams
  inject_params req r skillset_path = record {
    data_dir = r.inst.data_dir;
    instance_password = r.inst.instance_password;
    config = instance_config req r skillset_path;
    query_token = r.inst.query_token;
    cloud = req.cloud;
  }

  -- What follows the critical section.
  unfoldable pub deploy : Request → Reservation → P W Provisioned
  deploy req r = do
    let id = req.instance_id
    let dir = r.inst.data_dir
    or_undo id dir false ("provisioner: create data dir" ∷ []) (act (o.mkdir_all dir))
    path ← copy_skillset req dir
    or_undo id dir false ("provisioner: inject config" ∷ [])
        (act (o.config_writer (inject_params req r path)))
    or_undo id dir false ("provisioner: mark onboarding complete" ∷ [])
        (act (o.mark_onboarding_complete dir))
    note (provisions (provision_request req r path))
    or_undo id dir true ("provisioner: deploy" ∷ [])
        (act (o.plugin.provision (provision_request req r path)))
    or_undo id dir true ("provisioner: update status" ∷ [])
        (retry_update_status registry_retries (message []) id "running")
    pure (record {
      id = id;
      port = r.inst.port;
      data_dir = dir;
      status = "running";
      created_at = r.now;
    })

  unfoldable pub provision : Request → P W Provisioned
  provision req = do
    wrapping ("provisioner" ∷ []) (lift (validate_secrets req.admin_secret req.instance_password))
    name ← skillset_name req
    r ← reserve req name
    deploy req r

  abbrev remove_if : Bool → String → P W (Unit {0})
  remove_if false dir = pure tt
  remove_if true dir = do
    note (removes_data dir)
    wrapping ("provisioner: remove data dir" ∷ dir ∷ []) (act (o.remove_all dir))

  -- The data directory that is removed is the one in the registry.
  unfoldable pub destroy : String → Bool → P W (Unit {0})
  destroy instance_id remove_data = do
    inst ←
        wrapping ("provisioner" ∷ [])
          (reads o.sql_error λ fault rows. Instances.get fault instance_id rows)
    note (destroys instance_id)
    wrapping ("provisioner: destroy container" ∷ instance_id ∷ [])
        (act (o.plugin.destroy instance_id))
    remove_if remove_data inst.data_dir
    wrapping ("provisioner: delete registry entry" ∷ instance_id ∷ [])
        (writes o.sql_error λ fault rows. Instances.delete fault instance_id rows)
