-- ===== src/Mapper/Readings/Resent.antt =====
-- A reading that is sent again changes nothing in the merged readings of
-- 00_Base/src/mapper/SessionMapper.ts.
use mathlib.Core.List.Memᴰ
use mathlib.Core.List.{Memᴰ, append_assoc}
use citrineos_ocpi.Prelude.{
  ◌==◌, ==_iff, ◌≡◌, ◌⊎◌, inl, inr, refl, sym, ap, ◌∙◌, subst, true, false, List, [], ◌∷◌, ◌++◌,
  All, All-mono, arith, Bool-cases, String, eq_iff,
}
use citrineos_ocpi.Js.{Nullable, undefined, null, value, strict_eq}
use citrineos_ocpi.Mapper.Meter.{SampledValue, MeterValue}
use citrineos_ocpi.Mapper.Readings.{
  same_sample, already_merged, push_sample, push_samples, merge_reading, merge_readings,
  sort_by_time, merge_meter_values_by_timestamp,
}

strict_eq_refl : (a : Nullable String) → strict_eq a a ≡ true
strict_eq_refl undefined = refl
strict_eq_refl null = refl
strict_eq_refl (value s) = (eq_iff s s).1 refl

same_sample_refl : (s : SampledValue) → same_sample s s ≡ true
unfolding same_sample
same_sample_refl s =
    rw (strict_eq_refl s.measurand, strict_eq_refl s.phase, strict_eq_refl s.location)

already_merged-append :
    (xs ys : List SampledValue) (s : SampledValue)
    → already_merged xs s ≡ true
    → already_merged (xs ++ ys) s ≡ true
unfolding already_merged
already_merged-append [] ys s h = ground arith
already_merged-append (x ∷ xs) ys s h = elim (Bool-cases (same_sample x s)) [
  | inl e ↦ ground arith
  | inr e ↦ rw e (already_merged-append xs ys s (ground arith))
]

already_merged_at :
    (xs : List SampledValue) (s : SampledValue) (ys : List SampledValue)
    → already_merged (xs ++ s ∷ ys) s ≡ true
unfolding already_merged
already_merged_at [] s ys = rw (same_sample_refl s) refl
already_merged_at (x ∷ xs) s ys = elim (Bool-cases (same_sample x s)) [
  | inl e ↦ ground arith
  | inr e ↦ rw e (already_merged_at xs s ys)
]

already_merged-push_sample :
    (xs : List SampledValue) (t s : SampledValue)
    → already_merged xs s ≡ true
    → already_merged (push_sample xs t) s ≡ true
unfolding push_sample
already_merged-push_sample xs t s h = elim (Bool-cases (already_merged xs t)) [
  | inl e ↦ rw e h
  | inr e ↦ rw e (already_merged-append xs (t ∷ []) s h)
]

already_merged-push_self :
    (xs : List SampledValue) (t : SampledValue) → already_merged (push_sample xs t) t ≡ true
unfolding push_sample
already_merged-push_self xs t = elim (Bool-cases (already_merged xs t)) [
  | inl e ↦ rw e e
  | inr e ↦ rw e (already_merged_at xs t [])
]

already_merged-push_samples :
    (xs ts : List SampledValue) (s : SampledValue)
    → already_merged xs s ≡ true
    → already_merged (push_samples xs ts) s ≡ true
unfolding push_samples
already_merged-push_samples xs [] s h = h
already_merged-push_samples xs (t ∷ ts) s h =
    already_merged-push_samples (push_sample xs t) ts s (already_merged-push_sample xs t s h)

abbrev AllMerged : List SampledValue → List SampledValue → Type 0
AllMerged merged = All (λ s. already_merged merged s ≡ true)

push_samples-AllMerged : (xs ts : List SampledValue) → AllMerged (push_samples xs ts) ts
unfolding push_samples
push_samples-AllMerged xs [] = tt
push_samples-AllMerged xs (t ∷ ts) = (
  already_merged-push_samples (push_sample xs t) ts t (already_merged-push_self xs t),
  push_samples-AllMerged (push_sample xs t) ts,
)

AllMerged-suffix : (xs ss : List SampledValue) → AllMerged (xs ++ ss) ss
AllMerged-suffix xs [] = tt
AllMerged-suffix xs (s ∷ ss) = (
  already_merged_at xs s ss,
  subst (λ l. AllMerged l ss) (append_assoc xs (s ∷ []) ss) (AllMerged-suffix (xs ++ s ∷ []) ss),
)

push_samples_again : (xs ts : List SampledValue) → AllMerged xs ts → push_samples xs ts ≡ xs
unfolding push_samples push_sample
push_samples_again xs [] h = refl
push_samples_again xs (t ∷ ts) h = rw h.0 (push_samples_again xs ts h.1)

-- The merged readings hold every sampled value of the reading.
abbrev Covered : List MeterValue → MeterValue → Type 0
Covered [] v = ⊥
Covered (m ∷ ms) v =
    ((m.timestamp == v.timestamp) ≡ true × AllMerged m.sampled_value v.sampled_value)
    ⊎ ((m.timestamp == v.timestamp) ≡ false × Covered ms v)

merge_reading_again :
    (ms : List MeterValue) (v : MeterValue) → Covered ms v → merge_reading ms v ≡ ms
unfolding merge_reading
merge_reading_again [] v h = absurd h
merge_reading_again (m ∷ ms) v (inl (e, h)) =
    rw (e, push_samples_again m.sampled_value v.sampled_value h)
merge_reading_again (m ∷ ms) v (inr (e, h)) = rw (e, merge_reading_again ms v h)

merge_reading-Covered : (ms : List MeterValue) (v : MeterValue) → Covered (merge_reading ms v) v
unfolding merge_reading
merge_reading-Covered [] v =
    inl ((==_iff v.timestamp v.timestamp).1 refl, AllMerged-suffix [] v.sampled_value)
merge_reading-Covered (m ∷ ms) v = elim (Bool-cases (m.timestamp == v.timestamp)) [
  | inl e ↦ rw e (inl (e, push_samples-AllMerged m.sampled_value v.sampled_value))
  | inr e ↦ rw e (inr (e, merge_reading-Covered ms v))
]

Covered-merge_reading :
    (ms : List MeterValue) (w v : MeterValue) → Covered ms v → Covered (merge_reading ms w) v
unfolding merge_reading
Covered-merge_reading [] w v h = absurd h
Covered-merge_reading (m ∷ ms) w v (inl (e, h)) = elim (Bool-cases (m.timestamp == w.timestamp)) [
  | inl f ↦ rw f (
      inl (
        e,
        All-mono (λ s. already_merged m.sampled_value s ≡ true)
            (λ s. already_merged (push_samples m.sampled_value w.sampled_value) s ≡ true)
            v.sampled_value (already_merged-push_samples m.sampled_value w.sampled_value) h,
      ))
  | inr f ↦ rw f (inl (e, h))
]
Covered-merge_reading (m ∷ ms) w v (inr (e, h)) = elim (Bool-cases (m.timestamp == w.timestamp)) [
  | inl f ↦ rw f (inr (e, h))
  | inr f ↦ rw f (inr (e, Covered-merge_reading ms w v h))
]

Covered-merge_readings :
    (ms vs : List MeterValue) (v : MeterValue) → Covered ms v → Covered (merge_readings ms vs) v
unfolding merge_readings
Covered-merge_readings ms [] v h = h
Covered-merge_readings ms (w ∷ vs) v h =
    Covered-merge_readings (merge_reading ms w) vs v (Covered-merge_reading ms w v h)

merge_readings-Covered :
    (ms vs : List MeterValue) (v : MeterValue) → Memᴰ v vs → Covered (merge_readings ms vs) v
unfolding merge_readings
merge_readings-Covered ms [] v h = absurd (Memᴰ.not-nil h)
merge_readings-Covered ms (w ∷ vs) v h = elim (Memᴰ.cases_cons h) [
  | inl e ↦
      Covered-merge_readings (merge_reading ms w) vs v
        (subst (Covered (merge_reading ms w)) (sym e) (merge_reading-Covered ms w))
  | inr m ↦ merge_readings-Covered (merge_reading ms w) vs v m
]

merge_readings_again : (ms ws : List MeterValue) → All (Covered ms) ws → merge_readings ms ws ≡ ms
unfolding merge_readings
merge_readings_again ms [] h = refl
merge_readings_again ms (w ∷ ws) h =
    rw (merge_reading_again ms w h.0, merge_readings_again ms ws h.1)

pub merge_readings-append :
    (ms vs ws : List MeterValue)
    → merge_readings ms (vs ++ ws) ≡ merge_readings (merge_readings ms vs) ws
unfolding merge_readings
merge_readings-append ms [] ws = refl
merge_readings-append ms (v ∷ vs) ws = merge_readings-append (merge_reading ms v) vs ws

-- Readings that a station sends again, in any order and number, leave the merged readings as they
-- were: each of them stands among those sent before.
pub resent_readings_ignored :
    (vs ws : List MeterValue)
    → All (λ w. Memᴰ w vs) ws
    → merge_meter_values_by_timestamp (vs ++ ws) ≡ merge_meter_values_by_timestamp vs
unfolding merge_meter_values_by_timestamp
resent_readings_ignored vs ws h = ap sort_by_time (
    merge_readings-append [] vs ws
    ∙ merge_readings_again (merge_readings [] vs) ws (
        All-mono (λ w. Memᴰ w vs) (Covered (merge_readings [] vs)) ws (merge_readings-Covered [] vs)
          h))
