-- ===== src/Regex/FullMatch.antt =====
-- `fullmatch` decides the language of a pattern.
use mathlib.Core.Path.{subst}
use sih_ulpf.Common.{
  ℕ, ◌≡◌, refl, sym, ◌∙◌, ap, ◌⊎◌, Bool, true, false, ◌&&◌, ◌||◌, List, [], ◌∷◌, ◌++◌, arith,
  Bool-cases, inl, inr, ◌↔◌,
}
use sih_ulpf.Common.Text.{Text}
use sih_ulpf.Regex.Defs.{
  Re, empty, eps, one_of, seq, alt, star, Matches, m_eps, m_one, m_seq, m_left, m_right, m_stop,
  m_more, nullable, mk_seq, mk_alt, deriv, fullmatch,
}

-- What a match of each kind of pattern consists of.
abbrev Parts : Re → Text → Type 0
Parts empty u = ⊥
Parts eps u = u ≡ []
Parts (one_of p) u = (c : ℕ) × (p c ≡ true) × (u ≡ c ∷ [])
Parts (seq r q) u = (s : Text) × (t : Text) × Matches r s × Matches q t × (u ≡ s ++ t)
Parts (alt r q) u = Matches r u ⊎ Matches q u
Parts (star r) u = Unit

parts : {r : Re} {u : Text} → Matches r u → Parts r u
parts m_eps = refl
parts (m_one {c = c} h) = (c, h, refl)
parts (m_seq {s = s} {t = t} m k e) = (s, t, m, k, e)
parts (m_left m) = inl m
parts (m_right m) = inr m
parts m_stop = tt
parts (m_more m k e) = tt

nullable_sound : (r : Re) → nullable r ≡ true → Matches r []
unfolding nullable
nullable_sound empty h = cc
nullable_sound eps h = m_eps
nullable_sound (one_of p) h = cc
nullable_sound (seq r q) h =
    m_seq (nullable_sound r (ground arith)) (nullable_sound q (ground arith)) refl
nullable_sound (alt r q) h = elim (Bool-cases (nullable r)) [
  | inl e ↦ m_left (nullable_sound r e)
  | inr e ↦ m_right (nullable_sound q (ground arith))
]
nullable_sound (star r) h = m_stop

append_nil_left : (s t : Text) → [] ≡ s ++ t → s ≡ []
append_nil_left [] t e = refl
append_nil_left (c ∷ s) t e = cc

nullable_complete : {r : Re} {u : Text} → Matches r u → u ≡ [] → nullable r ≡ true
unfolding nullable
nullable_complete m_eps e = refl
nullable_complete (m_one h) e = cc
nullable_complete (m_seq {s = s} {t = t} m k h) e =
    let es = append_nil_left s t (sym e ∙ h) in
    ground (arith, nullable_complete m es, nullable_complete k (cc (h, e, es)))
nullable_complete (m_left m) e = ground (arith, nullable_complete m e)
nullable_complete (m_right {r = r} {q = q} m) e = ground (arith, nullable_complete m e)
nullable_complete m_stop e = refl
nullable_complete (m_more m k h) e = refl

mk_seq_sound : (r q : Re) {u : Text} → Matches (mk_seq r q) u → Matches (seq r q) u
unfolding mk_seq
mk_seq_sound empty q m = absurd (parts m)
mk_seq_sound eps q m = m_seq m_eps m refl
mk_seq_sound _ q m = m

mk_seq_complete : (r q : Re) {u : Text} → Matches (seq r q) u → Matches (mk_seq r q) u
unfolding mk_seq
mk_seq_complete empty q m = absurd (parts (parts m).2)
mk_seq_complete eps q {u} m =
    let (s, t, k, l, e) = parts m in subst (Matches q) (sym (e ∙ ap (λ z. z ++ t) (parts k))) l
mk_seq_complete _ q m = m

mk_alt_sound : (r q : Re) {u : Text} → Matches (mk_alt r q) u → Matches (alt r q) u
unfolding mk_alt
mk_alt_sound empty q m = m_right m
mk_alt_sound r empty m = m_left m
mk_alt_sound _ _ m = m

mk_alt_complete : (r q : Re) {u : Text} → Matches (alt r q) u → Matches (mk_alt r q) u
unfolding mk_alt
mk_alt_complete empty q m = elim (parts m) [ inl k ↦ absurd (parts k) | inr k ↦ k ]
mk_alt_complete r empty m = elim (parts m) [ inl k ↦ k | inr k ↦ absurd (parts k) ]
mk_alt_complete _ _ m = m

module _ (c : ℕ) where
  deriv_sound : (r : Re) {s : Text} → Matches (deriv c r) s → Matches r (c ∷ s)
  unfolding deriv
  deriv_sound empty m = absurd (parts m)
  deriv_sound eps m = absurd (parts m)
  deriv_sound (one_of p) {s} m = one_of_case (Bool-cases (p c)) m
    where
      one_of_case :
          (p c ≡ true) ⊎ (p c ≡ false)
          → Matches (sih_ulpf.Common.Tests.if◌then◌else◌ (p c) eps empty) s
          → Matches (one_of p) (c ∷ s)
      one_of_case (inl e) k =
          let n = parts (rw e at k) in subst (λ z. Matches (one_of p) (c ∷ z)) (sym n) (m_one e)
      one_of_case (inr e) k = absurd (parts (rw e at k))
  deriv_sound (seq r q) {s} m = elim (Bool-cases (nullable r)) [
    | inl e ↦ elim (parts (mk_alt_sound (mk_seq (deriv c r) q) (deriv c q) {u = s} (later e m))) [
      | inl k ↦
          let (a, b, ka, kb, f) = parts (mk_seq_sound (deriv c r) q k) in
          m_seq (deriv_sound r ka) kb (ap (λ z. c ∷ z) f)
      | inr k ↦ m_seq (nullable_sound r e) (deriv_sound q k) refl
    ]
    | inr e ↦
        let (a, b, ka, kb, f) = parts (mk_seq_sound (deriv c r) q {u = s} (first e m)) in
        m_seq (deriv_sound r ka) kb (ap (λ z. c ∷ z) f)
  ]
    where
      later :
          nullable r ≡ true
          → Matches (deriv c (seq r q)) s
          → Matches (mk_alt (mk_seq (deriv c r) q) (deriv c q)) s
      later e k = rw e at k

      first : nullable r ≡ false → Matches (deriv c (seq r q)) s → Matches (mk_seq (deriv c r) q) s
      first e k = rw e at k
  deriv_sound (alt r q) m = elim (parts (mk_alt_sound (deriv c r) (deriv c q) m)) [
    | inl k ↦ m_left (deriv_sound r k)
    | inr k ↦ m_right (deriv_sound q k)
  ]
  deriv_sound (star r) m =
      let (s, t, k, l, e) = parts (mk_seq_sound (deriv c r) (star r) m) in
      m_more (deriv_sound r k) l (ap (λ z. c ∷ z) e)

  -- a non-empty match of `star r` begins with a non-empty match of `r`
  star_head :
      {r : Re} {u : Text} (s : Text)
      → Matches (star r) u
      → u ≡ c ∷ s
      → (a : Text) × (b : Text) × Matches r (c ∷ a) × Matches (star r) b × (s ≡ a ++ b)
  star_head s m_stop e = cc
  star_head s (m_more {s = []} m k f) e = star_head s k (sym f ∙ e)
  star_head s (m_more {r = r} {s = d ∷ a} {t = t} m k f) e =
      (a, t, subst (λ z. Matches r (z ∷ a)) (cc (f, e)) m, k, cc (f, e))

  deriv_complete : {r : Re} {u : Text} (s : Text) → Matches r u → u ≡ c ∷ s → Matches (deriv c r) s
  unfolding deriv
  deriv_complete s m_eps e = cc
  deriv_complete s (m_one {p = p} {c = d} h) e =
      let at_c : p c ≡ true = cc (h, e) in rw at_c (subst (Matches eps) (cc e) m_eps)
  deriv_complete s (m_seq {r = r} {q = q} {s = []} {t = t} m k f) e =
      rw (nullable_complete m refl) (
        mk_alt_complete (mk_seq (deriv c r) q) (deriv c q)
          (m_right (deriv_complete s k (sym f ∙ e))))
  deriv_complete s (m_seq {r = r} {q = q} {s = d ∷ a} {t = t} m k f) e =
      let first : Matches (mk_seq (deriv c r) q) s =
        mk_seq_complete (deriv c r) q (m_seq (deriv_complete a m (cc (f, e))) k (cc (f, e))) in
      elim (Bool-cases (nullable r)) [
        | inl n ↦ rw n (mk_alt_complete (mk_seq (deriv c r) q) (deriv c q) (m_left first))
        | inr n ↦ rw n first
      ]
  deriv_complete s (m_left {r = r} {q = q} m) e =
      mk_alt_complete (deriv c r) (deriv c q) (m_left (deriv_complete s m e))
  deriv_complete s (m_right {r = r} {q = q} m) e =
      mk_alt_complete (deriv c r) (deriv c q) (m_right (deriv_complete s m e))
  deriv_complete s m_stop e = cc
  deriv_complete s (m_more {r = r} {s = []} m k f) e = deriv_complete s k (sym f ∙ e)
  deriv_complete s (m_more {r = r} {s = d ∷ a} {t = t} m k f) e =
      mk_seq_complete (deriv c r) (star r) (m_seq (deriv_complete a m (cc (f, e))) k (cc (f, e)))

fullmatch_sound : (r : Re) (s : Text) → fullmatch r s ≡ true → Matches r s
unfolding fullmatch
fullmatch_sound r [] h = nullable_sound r h
fullmatch_sound r (c ∷ s) h = deriv_sound c r (fullmatch_sound (deriv c r) s h)

fullmatch_complete : (r : Re) (s : Text) → Matches r s → fullmatch r s ≡ true
unfolding fullmatch
fullmatch_complete r [] m = nullable_complete m refl
fullmatch_complete r (c ∷ s) m = fullmatch_complete (deriv c r) s (deriv_complete c s m refl)

pub fullmatch_iff : (r : Re) (s : Text) → (fullmatch r s ≡ true) ↔ Matches r s
fullmatch_iff r s = (fullmatch_sound r s, fullmatch_complete r s)
