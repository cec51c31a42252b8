-- ===== src/Ratchet/Sampler.antt =====
-- `sample` of crates/vz-ratchet/src/helper.rs and the thread of crates/vz-ratchet/src/fleet.rs that
-- takes a sample each second until it is told to stop. `proc_pid_rusage` is a parameter: what it
-- returns at a time and the words that it writes. A sample takes no time, a sleep a second.
use macos_vm_memory_ratchet.Prelude.{
  ℕ, zero, suc, ◌+◌, ◌*◌, ◌≤◌, ◌<◌, ◌≡◌, refl, ap, ◌∙◌, arith, false, List, [], ◌∷◌, Option, none,
  some, ltb, ◌==◌, length, get_elem?, if◌then◌else◌, Bool-cases, inl, inr, Result, ok, panicked,
  out_of_fuel,
}

-- `rusage_info_v2` behind its uuid, by the offset of each field in 64-bit words.
pub data Field : Type 0 where
  user_time system_time pkg_idle_wkups interrupt_wkups pageins wired_size : Field
  resident_size phys_footprint proc_start_abstime proc_exit_abstime : Field
  child_user_time child_system_time child_pkg_idle_wkups child_interrupt_wkups : Field
  child_pageins child_elapsed_abstime diskio_bytesread diskio_byteswritten : Field

abbrev pub offset : Field → ℕ
offset user_time = 2
offset system_time = 3
offset pkg_idle_wkups = 4
offset interrupt_wkups = 5
offset pageins = 6
offset wired_size = 7
offset resident_size = 8
offset phys_footprint = 9
offset proc_start_abstime = 10
offset proc_exit_abstime = 11
offset child_user_time = 12
offset child_system_time = 13
offset child_pkg_idle_wkups = 14
offset child_interrupt_wkups = 15
offset child_pageins = 16
offset child_elapsed_abstime = 17
offset diskio_bytesread = 18
offset diskio_byteswritten = 19

pub record Usage : Type 0 where
  pub rc : ℕ
  pub words : ℕ → ℕ

pub record HelperLedger : Type 0 where
  pub footprint : ℕ
  pub resident : ℕ

abbrev pub ledger_of : Usage → HelperLedger
ledger_of u = record {
  footprint = u.words (offset Field.phys_footprint);
  resident = u.words (offset Field.resident_size);
}

unfoldable pub sample : Usage → Result HelperLedger
sample u = if u.rc == 0 then ok (ledger_of u) else panicked "proc_pid_rusage failed"

-- A line of the trace, with the time at which it was taken.
pub record Sample : Type 0 where
  pub at : ℕ
  pub ledger : HelperLedger

abbrev pub in_front : Sample → Option (List Sample) → Option (List Sample)
in_front s none = none
in_front s (some rest) = some (s ∷ rest)

module _ (usage : ℕ → Usage) (stop : ℕ) where
  -- What the thread prints, or no fuel. The flag is set at the time `stop`. A sample that panics ends
  -- the thread, which nothing else notices.
  unfoldable pub sampler : ℕ → ℕ → Option (List Sample)
  unfolding sample
  sampler zero now = none
  sampler (suc fuel) now =
      let rest = sampler fuel (now + 1000) in
      if ltb now stop
      then elim (sample (usage now)) [
        | ok l ↦ in_front (record { at = now; ledger = l }) rest
        | panicked what ↦ some []
        | out_of_fuel ↦ none
      ]
      else some []

  -- The trace: a sample at each whole second from `now` on, the last one less than a second before
  -- the stop.
  pub record IsTrace (now : ℕ) (trace : List Sample) : Type 0 where
    pub covered : stop ≤ now + 1000 * length trace
    pub over : now + 1000 * length trace < stop + 1000
    pub each :
        (i : ℕ)
        → i < length trace
        → get_elem? trace i
          ≡ some (record { at = now + 1000 * i; ledger = ledger_of (usage (now + 1000 * i)) })

  module _ (answers : (t : ℕ) → (usage t).rc ≡ 0) where
    sampled : (t : ℕ) → sample (usage t) ≡ ok (ledger_of (usage t))
    unfolding sample
    sampled t = rw (answers t) refl

    in_front-IsTrace :
        (now : ℕ) (rest : List Sample)
        → now < stop
        → IsTrace (now + 1000) rest
        → IsTrace now (record { at = now; ledger = ledger_of (usage now) } ∷ rest)
    in_front-IsTrace now rest lt is = record {
      covered = omega (arith, is.covered);
      over = omega (arith, is.over);
      each = each;
    }
      where
        each :
            (i : ℕ)
            → i < suc (length rest)
            → get_elem? (record { at = now; ledger = ledger_of (usage now) } ∷ rest) i
              ≡ some (record { at = now + 1000 * i; ledger = ledger_of (usage (now + 1000 * i)) })
        each zero h = ap (λ t. some (record { at = t; ledger = ledger_of (usage t) })) (omega arith)
        each (suc i) h =
            is.each i (omega (arith, h))
            ∙ ap (λ t. some (record { at = t; ledger = ledger_of (usage t) })) (omega arith)

    -- Where each call answers, the thread ends: a sample takes no time and a sleep a second, so the
    -- fuel for the time to the stop is enough. Its trace has a sample for each second from the
    -- start up to the stop, the last one less than a second before it, each with the footprint and
    -- the resident size that the kernel had at its time.
    pub sampler_lem :
        (fuel now : ℕ)
        → stop ≤ now + 1000 * fuel
        → now < stop + 1000
        → (trace : List Sample) × (sampler (suc fuel) now ≡ some trace) × IsTrace now trace
    unfolding sampler
    sampler_lem zero now enough late = (
      [],
      rw (over, if◌then◌else◌) refl,
      record {
        covered = omega (arith, enough);
        over = omega (arith, late);
        each = λ i h. absurd (omega (arith, h));
      },
    )
      where
        over : ltb now stop ≡ false
        over = ground (arith, enough)
    sampler_lem (suc fuel) now enough late = elim (Bool-cases (ltb now stop)) [
      | inr over ↦ (
        [],
        rw (over, if◌then◌else◌) refl,
        record {
          covered = ground (arith, over);
          over = omega (arith, late);
          each = λ i h. absurd (omega (arith, h));
        },
      )
      | inl early ↦
          let (rest, e, is) =
            sampler_lem fuel (now + 1000) (omega (arith, enough)) (ground (arith, early)) in
          (
            record { at = now; ledger = ledger_of (usage now) } ∷ rest,
            rw (early, sampled now, e, if◌then◌else◌) refl,
            in_front-IsTrace now rest (ground (arith, early)) is,
          )
    ]
