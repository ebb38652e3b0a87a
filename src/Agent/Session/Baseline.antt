-- ===== src/Agent/Session/Baseline.antt =====
-- The context-usage baseline of a session under the reports of a provider.
use perry_hermes.Prelude.{
  ℕ, ◌+◌, ◌≡◌, Option, none, some, List, [], ◌∷◌, arith, ◌==◌, if◌then◌else◌, min,
}
use perry_hermes.Core.Usage.{saturating_add, u64_max}
use perry_hermes.Agent.Files.{Files}
use perry_hermes.Agent.Session.{
  Session, Codec, remember_context_usage_baseline, compacted_context_tokens, or_else,
}

-- The first report that is not zero.
abbrev pub first_non_zero : List ℕ → Option ℕ
first_non_zero [] = none
first_non_zero (n ∷ ns) = if n == 0 then first_non_zero ns else some n

module _ {V : Type 0} (F : Files) (C : Codec V F.Bytes) where
  open F use {Fs}

  -- The loop reports the usage of one response after the other.
  unfoldable pub remember_all : List ℕ → Session V → Fs → Session V × Fs
  remember_all [] s fs = (s, fs)
  remember_all (n ∷ ns) s fs =
      let (s', fs') = remember_context_usage_baseline F C n s fs in remember_all ns s' fs'

  remember-baseline :
      (n : ℕ) (s : Session V) (fs : Fs)
      → (remember_context_usage_baseline F C n s fs).0 ≡ record s {
        context_usage_baseline_tokens =
            or_else s.context_usage_baseline_tokens (first_non_zero (n ∷ []));
      }
  unfolding remember_context_usage_baseline
  remember-baseline n s fs = ground arith

  or_else-first_non_zero :
      (o : Option ℕ) (n : ℕ) (ns : List ℕ)
      → or_else (or_else o (first_non_zero (n ∷ []))) (first_non_zero ns)
        ≡ or_else o (first_non_zero (n ∷ ns))
  or_else-first_non_zero o n ns = ground arith

  -- After any reports the baseline is the one that was there, or else the first report that is not
  -- zero; nothing else of the session changes.
  pub remember_all-baseline :
      (ns : List ℕ) (s : Session V) (fs : Fs)
      → (remember_all ns s fs).0 ≡ record s {
        context_usage_baseline_tokens = or_else s.context_usage_baseline_tokens (first_non_zero ns);
      }
  unfolding remember_all
  remember_all-baseline [] s fs = ground arith
  remember_all-baseline (n ∷ ns) s fs = ground (
    arith,
    remember-baseline n s fs,
    remember_all-baseline ns (remember_context_usage_baseline F C n s fs).0
        (remember_context_usage_baseline F C n s fs).1,
    or_else-first_non_zero s.context_usage_baseline_tokens n ns,
  )

  -- The estimate after a compaction exists exactly if there was a baseline or some report was
  -- not zero. It is the sum of that baseline, or else the first such report, and the summary's
  -- output tokens, cut off at the largest `u64`.
  pub compacted_context_tokens-remember_all :
      (ns : List ℕ) (out : ℕ) (s : Session V) (fs : Fs)
      → compacted_context_tokens out (remember_all ns s fs).0
        ≡ elim (or_else s.context_usage_baseline_tokens (first_non_zero ns)) [
          | none ↦ none
          | some first ↦ some (min u64_max (first + out))
        ]
  unfolding compacted_context_tokens saturating_add
  compacted_context_tokens-remember_all ns out s fs =
      rw (remember_all-baseline ns s fs) (ground arith)
