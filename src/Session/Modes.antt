-- ===== src/Session/Modes.antt =====
-- The modes of hv-reclaim on a VM that is up: the plain run of crates/hv-reclaim/src/main.rs, `run`
-- of timing.rs and `run` of fleet_sim.rs.
use macos_vm_memory_ratchet.Prelude.{
  ℕ, zero, suc, ◌+◌, ◌*◌, ◌^◌, ◌≤◌, ◌<◌, ◌≡◌, inl, inr, arith, Bool, true, false, not, ◌&&◌, ◌==◌,
  ltb, if◌then◌else◌, ok, Run, pure, ◌>>◌, Bool-cases, Returns, Returns->>=,
}
use macos_vm_memory_ratchet.Reclaim.Extents.{extent_of, extents_of}
use macos_vm_memory_ratchet.Reclaim.Services.{region_of, fleet_fits}
use macos_vm_memory_ratchet.Options.{Options}
use macos_vm_memory_ratchet.Soak.{slot_of}
use macos_vm_memory_ratchet.Session.{
  History, World, Pass, touch, read, guest, host_write, note, check, reset, cycles, demand,
  time_cycle, time_reclaim, start_services, fleet_sim, dirty, plain_cycle, pass_two, plain, on_vcpu,
  ram_size_of,
}
use macos_vm_memory_ratchet.Session.Rules.{running, IsGranting}
use macos_vm_memory_ratchet.Session.Bring.{
  IsUp, check_lem, guest-IsUp, host_write-IsUp, reset-Returns,
}
use macos_vm_memory_ratchet.Session.Canary.{parked-Returns, hammer-Returns}
use macos_vm_memory_ratchet.Session.Reclaims.{
  reclaim-Returns, reclaim_extents-Returns, stop_services-Returns,
}

-- The options of a run of which nothing but the system can fail: not the trap, extents that divide
-- the RAM, a fleet that fits in it, with no overflow in its size, and vCPUs of a soak between which
-- it can be split.
pub record IsReady (o : Options) : Type 0 where
  pub fixed : o.naive ≡ false
  pub divided :
      o.time_reclaim ≡ true
      → (n : ℕ) × (extents_of (ram_size_of o.size_gb) o.extent_kb ≡ ok n)
        × (0 < extent_of (ram_size_of o.size_gb) o.extent_kb)
  pub small : o.fleet_sim ≡ true → region_of o.service_mib * o.services < 2 ^ 64
  pub split : o.soak ≡ true → (slot : ℕ) × (slot_of (ram_size_of o.size_gb) o.vcpus ≡ ok slot)
  pub fits : o.fleet_sim ≡ true → fleet_fits o.service_mib o.services o.size_gb ≡ true

module _ (w : World) (grants : IsGranting w) (code size : ℕ) where
  -- A computation keeps the VM up with its RAM where it is.
  abbrev Keeps : ℕ → Run History (Unit {0}) → Type 0
  Keeps ram m =
      (es : History)
      → IsUp code size running ram es
      → Returns (λ _. IsUp code size running ram) (m es)

  guest-Keeps :
      (ram : ℕ) (pass : Pass) (from len : ℕ)
      → from + len ≤ size
      → Keeps ram (check w (guest pass from len))
  guest-Keeps ram pass from len fits es up =
      rw (check_lem w grants, Returns) (guest-IsUp code size ram es pass from len fits up)

  >>-Keeps :
      (ram : ℕ) (m n : Run History (Unit {0})) → Keeps ram m → Keeps ram n → Keeps ram (m >> n)
  >>-Keeps ram m n km kn es up =
      Returns->>= m (λ _. n) (λ _. IsUp code size running ram) (λ _. IsUp code size running ram) es
        (km es up) (λ _. kn)

  if-Keeps :
      (ram : ℕ) (b : Bool) (m n : Run History (Unit {0}))
      → Keeps ram m
      → Keeps ram n
      → Keeps ram (if b then m else n)
  if-Keeps ram true m n km kn = km
  if-Keeps ram false m n km kn = kn

  -- Cycles of a body that keeps the VM up, with resets between them.
  pub cycles-Returns :
      (body : ℕ → Run History (Unit {0})) (steady : Bool)
      → ((ram : ℕ) → Keeps ram (body ram))
      → (cycle left ram : ℕ) (es : History) → IsUp code size running ram es
      → Returns (IsUp code size running) (cycles w body steady size cycle left ram es)
  unfolding cycles
  cycles-Returns body steady keeps cycle zero ram es up = up
  cycles-Returns body steady keeps cycle (suc left) ram es up =
      Returns->>= (if ltb 1 cycle && not steady then reset w size ram else pure ram) _
        (IsUp code size running) (IsUp code size running) es (fresh (ltb 1 cycle && not steady))
        (λ ram' t up'.
          Returns->>= (body ram') (λ _. cycles w body steady size (cycle + 1) left ram')
            (λ _. IsUp code size running ram') (IsUp code size running) t (keeps ram' t up')
            (λ _ u. cycles-Returns body steady keeps (cycle + 1) left ram' u))
    where
      fresh :
          (b : Bool)
          → Returns (IsUp code size running) ((if b then reset w size ram else pure ram) es)
      fresh true = reset-Returns w grants code size ram es up
      fresh false = up

  time_cycle-Keeps :
      (o : Options) (n : ℕ)
      → extents_of size o.extent_kb ≡ ok n
      → 0 < extent_of size o.extent_kb
      → (ram : ℕ) → Keeps ram (time_cycle w o size ram)
  unfolding time_cycle
  time_cycle-Keeps o n accepted pos ram =
      let touches = guest-Keeps ram touch 0 size (omega arith) in
      >>-Keeps ram _ _ touches (
        >>-Keeps ram _ _
          (λ es up.
            reclaim_extents-Returns w grants code size ram es up o.extent_kb n o.reclaim_mode
              (w.number o.advice) accepted pos)
          touches)

  pub time_reclaim-Returns :
      (o : Options) (n ram : ℕ) (es : History)
      → extents_of size o.extent_kb ≡ ok n
      → 0 < extent_of size o.extent_kb
      → IsUp code size running ram es
      → Returns (IsUp code size running) (time_reclaim w o size ram es)
  unfolding time_reclaim demand
  time_reclaim-Returns o n ram es accepted pos up = rw accepted (
      cycles-Returns (time_cycle w o size) o.steady_state (time_cycle-Keeps o n accepted pos) 1
        o.repeat ram es up)

  start_services-Keeps :
      (ram region i left : ℕ)
      → (i + left) * region ≤ size
      → Keeps ram (start_services w region i left)
  unfolding start_services
  start_services-Keeps ram region i zero fits es up = up
  start_services-Keeps ram region i (suc left) fits es up =
      >>-Keeps ram _ _ (guest-Keeps ram touch (i * region) region (grind arith))
        (start_services-Keeps ram region (i + 1) left (grind arith)) es up

  dirty-Keeps : (o : Options) (ram : ℕ) → Keeps ram (dirty w o size ram)
  unfolding dirty note
  dirty-Keeps o ram =
      if-Keeps ram o.host_touch (note w (host_write ram size)) _
        (λ es up. host_write-IsUp code size ram es up)
        (guest-Keeps ram (if o.guest_read then read else touch) 0 size (omega arith))

  pass_two-Keeps : (o : Options) (ram : ℕ) → Keeps ram (pass_two w o size ram)
  unfolding pass_two
  pass_two-Keeps o ram = >>-Keeps ram _ _ (guest-Keeps ram touch 0 size (omega arith)) (
      >>-Keeps ram _ _
        (if-Keeps ram o.pressure_check _ (pure tt)
          (λ es up. parked-Returns w grants code size ram es up o.pressure_gb) (λ es up. up))
        (if-Keeps ram o.hammer _ (pure tt)
          (λ es up. hammer-Returns w grants code size ram es up o.pressure_gb) (λ es up. up)))

  plain_cycle-Keeps :
      (o : Options) → o.naive ≡ false → (ram : ℕ) → Keeps ram (plain_cycle w o size ram)
  unfolding plain_cycle
  plain_cycle-Keeps o fixed ram =
      >>-Keeps ram _ _ (dirty-Keeps o ram)
        (λ es up. rw fixed (reclaim-Returns w grants code size ram es up (w.number o.advice)))

  pub plain-Returns :
      (o : Options) (ram : ℕ) (es : History)
      → o.naive ≡ false
      → IsUp code size running ram es
      → Returns (IsUp code size running) (plain w o size ram es)
  unfolding plain
  plain-Returns o ram es fixed up =
      Returns->>= (cycles w (plain_cycle w o size) false size 1 o.repeat ram) _
        (IsUp code size running) (IsUp code size running) es
        (cycles-Returns (plain_cycle w o size) false (plain_cycle-Keeps o fixed) 1 o.repeat ram es
          up)
        (λ ram' t up'.
          let again = not o.host_touch && o.repeat == 1 in
          Returns->>= (if again then pass_two w o size ram' else pure tt) (λ _. pure ram')
            (λ _. IsUp code size running ram') (IsUp code size running) t
            (if-Keeps ram' again (pass_two w o size ram') (pure tt) (pass_two-Keeps o ram')
              (λ es up. up) t up')
            (λ _ u v. v))

  pub fleet_sim-Returns :
      (o : Options) (ram : ℕ) (es : History)
      → fleet_fits o.service_mib o.services o.size_gb ≡ true
      → region_of o.service_mib * o.services ≤ size
      → IsUp code size running ram es
      → Returns (λ _. IsUp code size running ram) (fleet_sim w o ram es)
  unfolding fleet_sim
  fleet_sim-Returns o ram es accepted fits up = rw accepted (
      >>-Keeps ram (start_services w (region_of o.service_mib) 0 o.services) _
        (start_services-Keeps ram (region_of o.service_mib) 0 o.services (grind arith))
        (λ t up'.
          stop_services-Returns w grants code size ram t up' (region_of o.service_mib) o.services
            fits)
        es up)

module _ (w : World) (grants : IsGranting w) (code : ℕ) (o : Options) (ready : IsReady o) where
  abbrev size : ℕ
  size = ram_size_of o.size_gb

  -- The whole fleet fits where its check says so, since its size does not overflow.
  fleet_le : o.fleet_sim ≡ true → region_of o.service_mib * o.services ≤ size
  unfolding fleet_fits ram_size_of
  fleet_le h = ground (arith, ready.small h, ready.fits h)

  pub on_vcpu-Returns :
      (ram : ℕ) (es : History)
      → IsUp code size running ram es
      → Returns (IsUp code size running) (on_vcpu w o size ram es)
  unfolding on_vcpu
  on_vcpu-Returns ram es up = elim (Bool-cases o.time_reclaim) [
    | inl timed ↦
        let (n, accepted, pos) = ready.divided timed in
        rw timed (time_reclaim-Returns w grants code size o n ram es accepted pos up)
    | inr other ↦ elim (Bool-cases o.fleet_sim) [
      | inl fleet ↦
          rw (other, fleet)
            (Returns->>= (fleet_sim w o ram) (λ _. pure ram) (λ _. IsUp code size running ram)
              (IsUp code size running) es
              (fleet_sim-Returns w grants code size o ram es (ready.fits fleet) (fleet_le fleet) up)
              (λ _ t u. u))
      | inr not_fleet ↦
          rw (other, not_fleet) (plain-Returns w grants code size o ram es ready.fixed up)
    ]
  ]
