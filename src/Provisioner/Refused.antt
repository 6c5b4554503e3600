-- ===== src/Provisioner/Refused.antt =====
-- pkg/client/provisioner.go, `CreateVM`: the ends before a provider is called.
use testenv_vm.Api.{VmSpec, ResourceState}
use testenv_vm.Provisioner.{
  ProvisionerError, Runtime, with_vms, on_env, create_checked, prepared_vm, create_vm,
  already_exists,
}
use testenv_vm.Executor.Backend.{Run}
use testenv_vm.Prelude.{
  String, ◌≡◌, refl, ap, ◌⊎◌, inl, inr, true, false, Dict, has, remove-insert, err,
}

module _ {W : Type 0} (rt : Runtime W) where
  -- The name is taken, or the specification cannot be rendered or is not valid.
  abbrev pub IsRefused : String → VmSpec → Run W → ProvisionerError → Type 0
  IsRefused name spec s e =
      ((has name s.env.resources.vms ≡ true) × (e ≡ already_exists name))
      ⊎ ((has name s.env.resources.vms ≡ false) × (prepared_vm rt spec s ≡ err e))

  -- A refused creation returns its error, calls nothing, and leaves the state as it was: the placeholder
  -- is gone again.
  pub create_vm-IsRefused :
      (name : String) (spec : VmSpec) (s : Run W) (e : ProvisionerError)
      → IsRefused name spec s e
      → create_vm rt name spec s ≡ (err e, s)
  unfolding create_vm create_checked prepared_vm
  create_vm-IsRefused name spec s e (inl (taken, is)) = rw (taken, is) refl
  create_vm-IsRefused name spec s e (inr (free, refused)) =
      rw (free, refused)
        (ap (λ (vms : Dict ResourceState). (err e, on_env rt (with_vms (λ _. vms)) s))
          (remove-insert name _ s.env.resources.vms free))
