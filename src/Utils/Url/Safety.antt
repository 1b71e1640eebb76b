-- ===== src/Utils/Url/Safety.antt =====
-- What `sanitizeReturnTo` of frontend/src/utils/url.ts lets through.
use locketgoldhuydev.Prelude.{
  ℕ, ◌≡◌, refl, sym, ap, ◌∙◌, subst, inl, inr, Bool, true, false, Option, none, some, [], ◌∷◌,
  String, arith, Text, codes, starts_with, includes, trim, trim_end, trim_start, is_space, ◌==◌,
  Bool-cases,
}
use locketgoldhuydev.Prelude.TextLaws.{
  Begins, Contains, IsTrimmed, starts_with-Begins, starts_with-append, not-Contains,
  includes-Contains, trim-cases, trim-cons, trim_end-cons,
}
use locketgoldhuydev.Utils.Url.{lower, rooted, is_local, has_no_scheme, accept, sanitize_return_to}

module _ (lower_other : ℕ → Text) where
  -- A path within the site, described without the tests of the code.
  pub record IsInternal (t : Text) : Type 0 where
    pub rest : Text
    pub from_root : t ≡ b'/' ∷ rest
    pub one_slash : ¬ Begins (codes "//") t
    pub no_backslash : ¬ Contains (codes "\\") t
    pub no_script : ¬ Contains (codes "javascript:") (lower lower_other t)
    pub no_inline_data : ¬ Contains (codes "data:") (lower lower_other t)

  root-IsInternal : IsInternal (codes "/")
  unfolding lower includes
  root-IsInternal = record {
    rest = [];
    from_root = refl;
    one_slash = λ h. cc (h.1);
    no_backslash = not-Contains (codes "/") (codes "\\") refl;
    no_script = not-Contains (codes "/") (codes "javascript:") refl;
    no_inline_data = not-Contains (codes "/") (codes "data:") refl;
  }

  -- The two tests together hold exactly for internal paths.
  tests-IsInternal :
      (t : Text) → is_local t ≡ true → has_no_scheme lower_other t ≡ true → IsInternal t
  unfolding is_local has_no_scheme
  tests-IsInternal t local plain =
      let (rest, e) = starts_with-Begins t (codes "/") (ground arith) in
      record {
        rest = rest;
        from_root = e;
        one_slash = refuted (starts_with t (codes "//")) (ground arith) (prefix_test "//");
        no_backslash = not-Contains t (codes "\\") (ground arith);
        no_script = not-Contains (lower lower_other t) (codes "javascript:") (ground arith);
        no_inline_data = not-Contains (lower lower_other t) (codes "data:") (ground arith);
      }
    where
      prefix_test : (p : String) → Begins (codes p) t → starts_with t (codes p) ≡ true
      prefix_test p (rest, e) =
          subst (λ u. starts_with u (codes p) ≡ true) (sym e) (starts_with-append (codes p) rest)

      refuted : {P : Type 0} (b : Bool) → b ≡ false → (P → b ≡ true) → ¬ P
      refuted b off on p = cc (on p)

  IsInternal-tests :
      (t : Text) → IsInternal t → (is_local t ≡ true) × (has_no_scheme lower_other t ≡ true)
  unfolding is_local has_no_scheme
  IsInternal-tests t v = (rw (slash, no_double, no_escape, no_back) refl, rw (no_js, no_uri) refl)
    where
      absent : (b : Bool) → ¬ (b ≡ true) → b ≡ false
      absent true h = absurd (h refl)
      absent false h = refl

      slash : starts_with t (codes "/") ≡ true
      slash =
          subst (λ u. starts_with u (codes "/") ≡ true) (sym v.from_root)
            (starts_with-append (codes "/") v.rest)

      no_double : starts_with t (codes "//") ≡ false
      no_double = absent _ (λ h. v.one_slash (starts_with-Begins t (codes "//") h))

      no_escape : starts_with t (codes "/\\") ≡ false
      no_escape = absent _ λ h.
          let (rest, e) = starts_with-Begins t (codes "/\\") h in
          v.no_backslash (codes "/", rest, e)

      no_back : includes t (codes "\\") ≡ false
      no_back = absent _ (λ h. v.no_backslash (includes-Contains t (codes "\\") h))

      no_js : includes (lower lower_other t) (codes "javascript:") ≡ false
      no_js = absent _ (λ h. v.no_script (includes-Contains _ (codes "javascript:") h))

      no_uri : includes (lower lower_other t) (codes "data:") ≡ false
      no_uri = absent _ (λ h. v.no_inline_data (includes-Contains _ (codes "data:") h))

  accept-IsInternal : (t : Text) → IsInternal (accept lower_other t)
  unfolding accept
  accept-IsInternal t = elim (Bool-cases (is_local t)) [
    | inl local ↦ elim (Bool-cases (has_no_scheme lower_other t)) [
      | inl plain ↦ rw (local, plain) (tests-IsInternal t local plain)
      | inr scheme ↦ rw (local, scheme) root-IsInternal
    ]
    | inr foreign ↦ rw foreign root-IsInternal
  ]

  accept-fixed : (t : Text) → IsInternal t → accept lower_other t ≡ t
  unfolding accept
  accept-fixed t v = let (local, plain) = IsInternal-tests t v in rw (local, plain)

  -- Whatever the parameter holds, the target is a path within the site: it begins with one slash,
  -- has no backslash, and no "javascript:" or "data:" in any case of letters.
  pub sanitize_return_to-IsInternal :
      (raw : Option Text) → IsInternal (sanitize_return_to lower_other raw)
  unfolding sanitize_return_to
  sanitize_return_to-IsInternal none = root-IsInternal
  sanitize_return_to-IsInternal (some []) = root-IsInternal
  sanitize_return_to-IsInternal (some (c ∷ s)) = accept-IsInternal _

  rooted-slash : (t : Text) → IsInternal t → rooted t ≡ t
  unfolding rooted
  rooted-slash t v = rw v.from_root

  -- A trimmed path within the site is its own target: nothing that is allowed gets lost.
  pub sanitize_return_to-keeps :
      (t : Text) → IsInternal t → IsTrimmed t → sanitize_return_to lower_other (some t) ≡ t
  unfolding sanitize_return_to
  sanitize_return_to-keeps [] v h = cc (v.from_root)
  sanitize_return_to-keeps (c ∷ s) v h =
      ap (λ u. accept lower_other (rooted u)) h
      ∙ ap (accept lower_other) (rooted-slash _ v)
      ∙ accept-fixed _ v

  rooted-IsTrimmed : (s : Text) → IsTrimmed (rooted (trim s))
  unfolding rooted
  rooted-IsTrimmed s = elim (trim-cases s) [
    | inl e ↦ rw e (unfold trim trim_start trim_end in refl)
    | inr (c, rest, e, plain, done) ↦ elim (Bool-cases (c == b'#')) [
      | inl hash ↦
          rw (e, hash)
            (trim-cons b'/' (c ∷ rest) (unfold is_space in refl)
              ∙ ap (λ u. b'/' ∷ u) (trim_end-cons c rest plain ∙ ap (λ u. c ∷ u) done))
      | inr other ↦ rw (e, other) (trim-cons c rest plain ∙ ap (λ u. c ∷ u) done)
    ]
  ]

  accept-IsTrimmed : (t : Text) → IsTrimmed t → IsTrimmed (accept lower_other t)
  unfolding accept trim
  accept-IsTrimmed t h = ground arith

  sanitize_return_to-IsTrimmed :
      (raw : Option Text) → IsTrimmed (sanitize_return_to lower_other raw)
  unfolding sanitize_return_to
  sanitize_return_to-IsTrimmed none = unfold trim in refl
  sanitize_return_to-IsTrimmed (some []) = unfold trim in refl
  sanitize_return_to-IsTrimmed (some (c ∷ s)) = accept-IsTrimmed _ (rooted-IsTrimmed (c ∷ s))

  -- Sanitising a target a second time changes nothing.
  pub sanitize_return_to_idem :
      (raw : Option Text)
      → sanitize_return_to lower_other (some (sanitize_return_to lower_other raw))
        ≡ sanitize_return_to lower_other raw
  sanitize_return_to_idem raw =
      sanitize_return_to-keeps _ (sanitize_return_to-IsInternal raw)
        (sanitize_return_to-IsTrimmed raw)
