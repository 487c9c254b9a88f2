-- ===== src/Classic/Limits.antt =====
-- A process that is accepted kept its limits.
use brunost_judge.Prelude.{ℕ, ◌*◌, ◌≤◌, ◌≡◌, ◌↔◌, refl, true, false, List, [], ◌∷◌, arith, All}
use brunost_judge.Prelude.Int.{ℤ, pos, eq_ℤ, eq_of_parts}
use brunost_judge.Classic.Process.{
  passed, Sample, Ended, started, Stop, exited, output_limited, stderr_limited, timed_out, Limits,
  max_stderr_bytes, above_limit, output_above, watch, output_size, verdict_of, run_process,
}

-- a sample that stops nothing
pub record IsCalm (l : Limits) (s : Sample) : Type 0 where
  pub small_output : output_above l s.stdout_size ≡ false
  pub small_stderr : s.stderr_size ≤ max_stderr_bytes
  pub in_time : s.elapsed ≤ l.timeout_ms * 1000000

watch-exited : (l : Limits) (ss : List Sample) → watch l ss ≡ exited → All (IsCalm l) ss
unfolding watch
watch-exited l [] h = tt
watch-exited l (s ∷ ss) h = (
  record {
    small_output = ground (arith, h);
    small_stderr = ground (arith, h);
    in_time = ground (arith, h);
  },
  watch-exited l ss (ground (arith, h)),
)

exited-watch : (l : Limits) (ss : List Sample) → All (IsCalm l) ss → watch l ss ≡ exited
unfolding watch
exited-watch l [] h = refl
exited-watch l (s ∷ ss) (calm, rest) =
    ground (arith, calm.small_output, calm.small_stderr, calm.in_time, exited-watch l ss rest)

-- a process that ended by itself, without an error, within its limits at each look and at the end
pub record IsWithin (l : Limits) (ss : List Sample) (e : Ended) : Type 0 where
  pub calm : All (IsCalm l) ss
  pub succeeded : e.returncode ≡ pos 0
  pub small_stderr : e.stderr_size ≤ max_stderr_bytes
  pub small_output : above_limit l (output_size l e) ≡ false

passed-ended :
    (l : Limits) (stop : Stop) (e : Ended)
    → verdict_of l stop e ≡ passed
    → (stop ≡ exited)
      × (eq_ℤ e.returncode (pos 0) ≡ true)
      × (e.stderr_size ≤ max_stderr_bytes)
      × (above_limit l (output_size l e) ≡ false)
unfolding verdict_of
passed-ended l exited e h = (refl, ground (arith, h), ground (arith, h), ground (arith, h))
passed-ended l output_limited e h = absurd (ground (arith, h))
passed-ended l stderr_limited e h = absurd (ground (arith, h))
passed-ended l timed_out e h = absurd (ground (arith, h))

zero_code : (i : ℤ) → eq_ℤ i (pos 0) ≡ true → i ≡ pos 0
zero_code i h = eq_of_parts i (pos 0) (ground (arith, h))

within-passed :
    (l : Limits) (ss : List Sample) (e : Ended)
    → IsWithin l ss e
    → verdict_of l (watch l ss) e ≡ passed
unfolding verdict_of
within-passed l ss e w =
    let ended = exited-watch l ss w.calm in
    let code : eq_ℤ e.returncode (pos 0) ≡ true = rw w.succeeded refl in
    rw ended (ground (arith, code, w.small_stderr, w.small_output))

-- A process that was started has the verdict OK exactly if it ended by itself with the code 0, and at
-- every look and at its end its output and its diagnostics were within their limits, and its time at
-- every look.
pub passed_iff_IsWithin :
    (l : Limits) (ss : List Sample) (e : Ended) (output : List ℕ)
    → ((run_process l (started ss e output)).verdict ≡ passed) ↔ IsWithin l ss e
unfolding run_process
passed_iff_IsWithin l ss e output = (
  λ h.
      let facts = passed-ended l (watch l ss) e h in
      record {
        calm = watch-exited l ss facts.0;
        succeeded = zero_code e.returncode facts.1;
        small_stderr = facts.2;
        small_output = facts.3;
      },
  λ w. within-passed l ss e w,
)
