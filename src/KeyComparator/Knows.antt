-- ===== src/KeyComparator/Knows.antt =====
-- What the state of the comparator of libTupl/src/tupl/pvt/Node.cpp knows of the keys in the search
-- vector, and that every probe keeps it true.
use tupl_native.Common.{
  ℕ, zero, suc, ◌+◌, ◌≤◌, ◌<◌, ◌≡◌, sym, ap, ◌∙◌, subst, Bool, true, false, none, some, List, [],
  ◌∷◌, arith, length, get_elem?, take, min, All, ok, Build, Bool-cases, inl, inr, Option-cases, ◌≢◌,
}
use tupl_native.Bytes.{Contents, less, key_equals}
use tupl_native.Bytes.Order.{key_equals→eq, key_equals_refl}
use tupl_native.KeyComparator.{State, mismatch, decide_at, compare_lower}
use tupl_native.KeyComparator.Prefix.{
  less-take_mono, ge-take_mono, take-less, less-take, squeeze, take-mismatch, mismatch_self,
  eq_of_mismatch,
}
use tupl_native.KeyComparator.Compare.{compare_lower_skip, decide_at-lower, decide_at-upper}

-- Keys grow strictly along the search vector.
abbrev pub IsAscending : List Contents → Type 0
IsAscending [] = Unit
IsAscending (k ∷ ks) = All (λ e. less k e ≡ true) ks × IsAscending ks

abbrev pub before : List Contents → Contents → ℕ → Bool
before keys key i = elim (get_elem? keys i) [ none ↦ false | some k ↦ less k key ]

-- The key stands at a position.
abbrev pub key_is : List Contents → Contents → ℕ → Bool
key_is keys key i = elim (get_elem? keys i) [ none ↦ false | some k ↦ key_equals key k ]

All-get :
    (k : Contents) (ks : List Contents) (j : ℕ) (b : Contents)
    → All (λ e. less k e ≡ true) ks
    → get_elem? ks j ≡ some b
    → less k b ≡ true
All-get k [] j b a q = cc
All-get k (e ∷ ks) zero b a q = ground arith
All-get k (e ∷ ks) (suc j) b a q = All-get k ks j b a.1 q

pub IsAscending-get :
    (ks : List Contents) (i j : ℕ) (a b : Contents)
    → IsAscending ks
    → i < j
    → get_elem? ks i ≡ some a
    → get_elem? ks j ≡ some b
    → less a b ≡ true
IsAscending-get [] i j a b o h p q = cc
IsAscending-get (k ∷ ks) i zero a b o h p q = absurd (omega arith)
IsAscending-get (k ∷ ks) zero (suc j) a b o h p q = ground (arith, All-get k ks j b o.0 q)
IsAscending-get (k ∷ ks) (suc i) (suc j) a b o h p q =
    IsAscending-get ks i j a b o.1 (omega arith) p q

-- What the state knows of the keys from `first` on and of those in front of `last`.
pub record Knows (keys : List Contents) (key : Contents) (first last : ℕ) (st : State)
    : Type 0 where
  pub lo_short : st.lo_prefix_size < length key
  pub hi_short : st.hi_prefix_size < length key
  pub low :
      (i : ℕ) (e : Contents)
      → first ≤ i
      → get_elem? keys i ≡ some e
      → less (take st.lo_prefix_size key) e ≡ true
  pub high :
      (i : ℕ) (e : Contents)
      → i < last
      → get_elem? keys i ≡ some e
      → less (take st.hi_prefix_size key) (take st.hi_prefix_size e) ≡ false
  pub found : st.equal ≡ key_is keys key last

module _ (build : Build) (keys : List Contents) (key : Contents)
    (ascending : IsAscending keys) where
  -- The comparison at a probe.
  pub probe :
      (first last mid : ℕ) (k : Contents) (st : State)
      → Knows keys key first last st
      → first ≤ mid
      → mid < last
      → get_elem? keys mid ≡ some k
      → compare_lower build k key st ≡ ok (decide_at k key st (mismatch k key))
  probe first last mid k st kn h q g =
      let p = min st.lo_prefix_size st.hi_prefix_size in
      let sq =
        squeeze p key k (omega (arith, kn.lo_short))
          (less-take_mono p st.lo_prefix_size key k (omega arith) (kn.low mid k h g))
          (ge-take_mono p st.hi_prefix_size key k (omega arith) (kn.high mid k q g)) in
      compare_lower_skip build k key st sq.0 sq.1 (omega (arith, kn.lo_short))

  pub absent_behind :
      (mid last : ℕ) (k : Contents)
      → mid < last
      → get_elem? keys mid ≡ some k
      → less k key ≡ false
      → key_is keys key last ≡ false
  absent_behind mid last k q g ge = elim (Bool-cases (key_is keys key last)) [
    | inr f ↦ f
    | inl t ↦ elim (Option-cases (get_elem? keys last)) [
      | inl e ↦ rw (e, key_is)
      | inr (b, e) ↦
          let same = key_equals→eq key b (rw (e, key_is) at t) in
          absurd (cc (IsAscending-get keys mid last k b ascending q g e, same, ge))
    ]
  ]

  module _ (first last mid : ℕ) (k : Contents) (st : State) (kn : Knows keys key first last st)
      (h : first ≤ mid) (q : mid < last) (g : get_elem? keys mid ≡ some k) where
    pub Knows-lower :
        less k key ≡ true → Knows keys key (mid + 1) last (decide_at k key st (mismatch k key)).1
    Knows-lower lt = elim (decide_at-lower k key st lt) [
      | inl e ↦ subst (Knows keys key (mid + 1) last) (sym e) (record {
        lo_short = kn.lo_short;
        hi_short = kn.hi_short;
        low = λ i b p r. kn.low i b (omega arith) r;
        high = kn.high;
        found = kn.found;
      })
      | inr (e, short) ↦ subst (Knows keys key (mid + 1) last) (sym e) (record {
        lo_short = short;
        hi_short = kn.hi_short;
        low = λ i b p r.
            subst (λ (t : Contents). less t b ≡ true) (take-mismatch k key)
              (less-take (mismatch k key) k b
                (IsAscending-get keys mid i k b ascending (omega arith) g r));
        high = kn.high;
        found = kn.found;
      })
    ]

    key_is_mid : key_is keys key mid ≡ key_equals key k
    key_is_mid = rw (g, key_is)

    -- The key is neither at the probe nor behind it.
    found_upper : less k key ≡ false → k ≢ key → st.equal ≡ key_is keys key mid
    found_upper ge ne = elim (Bool-cases (key_equals key k)) [
      | inl e ↦ absurd (ne (sym (key_equals→eq key k e)))
      | inr e ↦ kn.found ∙ absent_behind mid last k q g ge ∙ sym (key_is_mid ∙ e)
    ]

    pub Knows-upper :
        less k key ≡ false → Knows keys key first mid (decide_at k key st (mismatch k key)).1
    Knows-upper ge = elim (decide_at-upper k key st ge) [
      | inl (e, whole, same) ↦ subst (Knows keys key first mid) (sym e) (record {
        lo_short = kn.lo_short;
        hi_short = kn.hi_short;
        low = kn.low;
        high = λ i b p r. kn.high i b (omega arith) r;
        found = sym (
            key_is_mid
            ∙ subst (λ t. key_equals key t ≡ true) (sym (eq_of_mismatch k key whole same))
                (key_equals_refl key));
      })
      | inr (inl (e, longer)) ↦ subst (Knows keys key first mid) (sym e) (record {
        lo_short = kn.lo_short;
        hi_short = kn.hi_short;
        low = kn.low;
        high = λ i b p r. kn.high i b (omega arith) r;
        found = found_upper ge (λ c. absurd (omega (arith, ap length c)));
      })
      | inr (inr (e, short, short')) ↦ subst (Knows keys key first mid) (sym e) (record {
        lo_short = kn.lo_short;
        hi_short = short';
        low = kn.low;
        high = λ i b p r.
            subst (λ (t : Contents). less t (take (mismatch k key) b) ≡ false) (take-mismatch k key)
              (take-less (mismatch k key) b k (IsAscending-get keys i mid b k ascending p r g));
        found =
            found_upper ge (λ c.
              absurd (omega (arith, subst (λ t. mismatch k t ≡ length k) c (mismatch_self k))));
      })
    ]
