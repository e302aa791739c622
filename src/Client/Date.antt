-- ===== src/Client/Date.antt =====
-- frontend/src/TimestampUtil.h: canonical timestamps. QDateTime is a parameter.
use bit_atm.Prelude.{
  ℕ, zero, suc, ◌≡◌, refl, sym, ap, ◌∙◌, true, [], ◌∷◌, ◌++◌, arith, ◌==◌, if◌then◌else◌, length,
  All, Str, is_space,
}
use mathlib.Core.List.{append_assoc, append-nil}

-- What QDateTime::fromString reads: an instant, in milliseconds since some epoch, from a text with a
-- zone, or the digits of a text without one, read as UTC.
pub data Reading : Type 0 where
  invalid : Reading
  zoned : ℕ → Reading
  naive : ℕ → Reading

-- QString::trimmed, QDateTime::fromString and toString with Qt::ISODateWithMs in UTC.
pub record DateTime : Type 0 where
  pub trimmed : Str → Str
  pub from_string : Str → Reading
  pub utc_text : ℕ → Str

-- if (s.size() > 10 && s.at(10) == ' ') s[10] = 'T';
unfoldable pub set_space : ℕ → Str → Str
set_space n [] = []
set_space zero (c ∷ s) = (if c == b' ' then b'T' else c) ∷ s
set_space (suc n) (c ∷ s) = c ∷ set_space n s

set_space-space :
    (n : ℕ) (day time : Str)
    → length day ≡ n
    → set_space n (day ++ b' ' ∷ time) ≡ day ++ b'T' ∷ time
unfolding set_space
set_space-space zero [] time h = refl
set_space-space zero (c ∷ day) time h = ground arith
set_space-space (suc n) [] time h = ground arith
set_space-space (suc n) (c ∷ day) time h = ap (◌∷◌ c) (set_space-space n day time (ground arith))

set_space-other :
    (n : ℕ) (day time : Str)
    → length day ≡ n
    → set_space n (day ++ b'T' ∷ time) ≡ day ++ b'T' ∷ time
unfolding set_space
set_space-other zero [] time h = refl
set_space-other zero (c ∷ day) time h = ground arith
set_space-other (suc n) [] time h = ground arith
set_space-other (suc n) (c ∷ day) time h = ap (◌∷◌ c) (set_space-other n day time (ground arith))

module _ (q : DateTime) where
  abbrev shown : Str → Reading → Str
  shown raw invalid = raw
  shown raw (zoned t) = q.utc_text t
  shown raw (naive t) = q.utc_text t

  unfoldable pub canonical : Str → Str
  unfolding set_space
  canonical raw = shown raw (q.from_string (set_space 10 (q.trimmed raw)))

  -- QString::trimmed takes white space from both ends of a text.
  pub record IsTrimming : Type 0 where
    pub front : (c : ℕ) (s : Str) → is_space c ≡ true → q.trimmed (c ∷ s) ≡ q.trimmed s
    pub back : (c : ℕ) (s : Str) → is_space c ≡ true → q.trimmed (s ++ c ∷ []) ≡ q.trimmed s

  trimmed-back :
      (laws : IsTrimming) (s after : Str)
      → All (λ c. is_space c ≡ true) after
      → q.trimmed (s ++ after) ≡ q.trimmed s
  trimmed-back laws s [] h = rw append-nil
  trimmed-back laws s (c ∷ after) (h, hs) =
      ap q.trimmed (sym (append_assoc s (c ∷ []) after))
      ∙ trimmed-back laws (s ++ c ∷ []) after hs
      ∙ laws.back c s h

  trimmed-padded :
      (laws : IsTrimming) (before s after : Str)
      → All (λ c. is_space c ≡ true) before
      → All (λ c. is_space c ≡ true) after
      → q.trimmed (before ++ s ++ after) ≡ q.trimmed s
  trimmed-padded laws [] s after h k = trimmed-back laws s after k
  trimmed-padded laws (c ∷ before) s after (h, hs) k =
      laws.front c (before ++ s ++ after) h ∙ trimmed-padded laws before s after hs k

  -- If QString::trimmed takes white space from both ends, and the database's text of a date of ten
  -- characters, a space and a time without a zone, which may stand in white space, and a packet's
  -- text of such a date, a 'T' and a time with a zone are, with the 'T' for the space, one instant to
  -- QDateTime, then both have one canonical timestamp.
  pub canonical-replayed :
      IsTrimming
      → (before after day time live_day live_time : Str) (t : ℕ)
      → All (λ c. is_space c ≡ true) before
      → All (λ c. is_space c ≡ true) after
      → length day ≡ 10
      → length live_day ≡ 10
      → q.trimmed (day ++ b' ' ∷ time) ≡ day ++ b' ' ∷ time
      → q.trimmed (live_day ++ b'T' ∷ live_time) ≡ live_day ++ b'T' ∷ live_time
      → q.from_string (day ++ b'T' ∷ time) ≡ naive t
      → q.from_string (live_day ++ b'T' ∷ live_time) ≡ zoned t
      → canonical (before ++ (day ++ b' ' ∷ time) ++ after)
        ≡ canonical (live_day ++ b'T' ∷ live_time)
  unfolding canonical
  canonical-replayed laws before after day time live_day live_time t hb ha hd hl tight live_tight
        reads live_reads =
      rw (
        trimmed-padded laws before (day ++ b' ' ∷ time) after hb ha,
        tight,
        live_tight,
        set_space-space 10 day time hd,
        set_space-other 10 live_day live_time hl,
        reads,
        live_reads,
      )
