-- ===== src/Variables/Resolve.antt =====
-- The recursion of `resolve_variables` (src/project.c): its end, its result, and circular
-- properties.
use gantt.Prelude.{
  ℕ, zero, suc, ◌+◌, ◌≡◌, ◌<◌, refl, Option, none, some, [], ◌∷◌, ◌++◌, arith, if◌then◌else◌,
  Option-cases, inl, inr, ap, sym, ◌∙◌, ◌==◌,
}
use native.Mathlib.Nat.{suc-add}
use gantt.Text.{Bytes}
use gantt.Dict.{Dict}
use gantt.Variables.{replace_first, resolve_loop, resolve_variables}
use gantt.Variables.Scan.{
  Lacks, reference, Replaced, replace_first-Replaced, replace_first-reference,
}

-- The number of "$" in a text.
pub dollars : Bytes → ℕ
dollars [] = 0
dollars (c ∷ text) = if c == b'$' then suc (dollars text) else dollars text

dollars-append : (s t : Bytes) → dollars (s ++ t) ≡ dollars s + dollars t
unfolding dollars
dollars-append [] t = omega arith
dollars-append (c ∷ s) t = ground (arith, dollars-append s t)

dollars-Lacks : (s : Bytes) → Lacks b'$' s → dollars s ≡ 0
unfolding dollars
dollars-Lacks [] h = refl
dollars-Lacks (c ∷ s) h = ground (arith, h.0, dollars-Lacks s h.1)

dollars-reference : (name : Bytes) → 0 < dollars (reference name)
unfolding dollars
dollars-reference name = omega arith

module _ (property : Bytes → Option Bytes) where
  -- No value holds a "$".
  abbrev pub IsFlat : Type 0
  IsFlat = (name v : Bytes) → property name ≡ some v → Lacks b'$' v

  Replaced-dollars :
      (value value' : Bytes)
      → IsFlat
      → Replaced property value value'
      → dollars value' < dollars value
  Replaced-dollars value value' flat r =
      let open_value = ap dollars r.has_reference in
      let open_value' = ap dollars r.becomes in
      omega (
        arith,
        open_value,
        open_value',
        dollars-append r.before (reference r.name ++ r.after),
        dollars-append (reference r.name) r.after,
        dollars-append r.before (r.found ++ r.after),
        dollars-append r.found r.after,
        dollars-Lacks r.found (flat r.name r.found r.is_set),
        dollars-reference r.name,
      )

  pub resolve_loop-done :
      (fuel : ℕ) (value : Bytes)
      → replace_first property value ≡ none
      → resolve_loop property (suc fuel) value ≡ some value
  unfolding resolve_loop
  resolve_loop-done fuel value e = rw (e, resolve_loop)

  pub resolve_loop-step :
      (fuel : ℕ) (value : Bytes) {value' : Bytes}
      → replace_first property value ≡ some value'
      → resolve_loop property (suc fuel) value ≡ resolve_loop property fuel value'
  unfolding resolve_loop
  resolve_loop-step fuel value e = rw (e, resolve_loop)

  pub resolve_loop-total :
      (fuel : ℕ) (value : Bytes)
      → IsFlat
      → dollars value < fuel
      → (result : Bytes) × (resolve_loop property fuel value ≡ some result)
        × (replace_first property result ≡ none)
  resolve_loop-total zero value flat h = absurd (omega arith)
  resolve_loop-total (suc fuel) value flat h = elim (Option-cases (replace_first property value)) [
    | inl e ↦ (value, resolve_loop-done fuel value e, e)
    | inr (value', e) ↦
        let fewer = Replaced-dollars value value' flat (replace_first-Replaced property value e) in
        let (result, done, last) = resolve_loop-total fuel value' flat (omega arith) in
        (result, resolve_loop-step fuel value e ∙ done, last)
  ]

  pub resolve_loop-fixed :
      (fuel : ℕ) (value result : Bytes)
      → resolve_loop property fuel value ≡ some result
      → replace_first property result ≡ none
  resolve_loop-fixed zero value result h = unfold resolve_loop in cc
  resolve_loop-fixed (suc fuel) value result h =
      elim (Option-cases (replace_first property value)) [
        | inl e ↦ ground (arith, resolve_loop-done fuel value e)
        | inr (value', e) ↦
            resolve_loop-fixed fuel value' result (sym (resolve_loop-step fuel value e) ∙ h)
      ]

  pub resolve_loop-more :
      (fuel more : ℕ) (value result : Bytes)
      → resolve_loop property fuel value ≡ some result
      → resolve_loop property (fuel + more) value ≡ some result
  resolve_loop-more zero more value result h = unfold resolve_loop in cc
  resolve_loop-more (suc fuel) more value result h =
      elim (Option-cases (replace_first property value)) [
        | inl e ↦
            rw suc-add
              (resolve_loop-done (fuel + more) value e ∙ sym (resolve_loop-done fuel value e) ∙ h)
        | inr (value', e) ↦ rw suc-add (
            resolve_loop-step (fuel + more) value e
            ∙ resolve_loop-more fuel more value' result (sym (resolve_loop-step fuel value e) ∙ h))
      ]

  pub resolve_loop-circular :
      (fuel : ℕ) (before name after : Bytes)
      → Lacks b'$' before
      → Lacks b'}' name
      → property name ≡ some (reference name)
      → resolve_loop property fuel (before ++ (reference name ++ after)) ≡ none
  resolve_loop-circular zero before name after d c e = unfold resolve_loop in refl
  resolve_loop-circular (suc fuel) before name after d c e =
      resolve_loop-step fuel (before ++ (reference name ++ after))
        (replace_first-reference property before name after (reference name) d c e)
      ∙ resolve_loop-circular fuel before name after d c e

module _ (D : Dict Bytes) (property_dict : Dict.Table D) where
  abbrev pub property_of : Bytes → Option Bytes
  property_of name = Dict.lookup D property_dict name

  -- Where no property value holds a "$", `resolve_variables` returns on every text, after no more
  -- replacements than the text has "$"s, and the scan replaces nothing in the result.
  pub resolve_variables-total :
      (value : Bytes)
      → IsFlat property_of
      → (result : Bytes) × (resolve_variables D (suc (dollars value)) value property_dict
          ≡ some result)
        × (replace_first property_of result ≡ none)
  unfolding resolve_variables
  resolve_variables-total value flat =
      resolve_loop-total property_of (suc (dollars value)) value flat (omega arith)

  -- What `resolve_variables` returns it returns unchanged, and any more fuel gives the same
  -- result.
  pub resolve_variables_idem :
      (fuel more : ℕ) (value result : Bytes)
      → resolve_variables D fuel value property_dict ≡ some result
      → (resolve_variables D (fuel + more) value property_dict ≡ some result)
        × (resolve_variables D (suc more) result property_dict ≡ some result)
  unfolding resolve_variables
  resolve_variables_idem fuel more value result h = (
    resolve_loop-more property_of fuel more value result h,
    resolve_loop-done property_of more result (resolve_loop-fixed property_of fuel value result h),
  )

  -- A property whose value is the reference to itself makes `resolve_variables` recur for ever on
  -- every text that refers to it behind no other "$": no amount of fuel gives a result.
  pub resolve_variables_circular :
      (fuel : ℕ) (before name after : Bytes)
      → Lacks b'$' before
      → Lacks b'}' name
      → property_of name ≡ some (reference name)
      → resolve_variables D fuel (before ++ (reference name ++ after)) property_dict ≡ none
  unfolding resolve_variables
  resolve_variables_circular fuel before name after =
      resolve_loop-circular property_of fuel before name after
