-- ===== src/Prelude/Dict.antt =====
-- A Python dict in insertion order: an update keeps the key's place.
use mathlib.Core.Path.{◌≡◌, refl, ap}
use mathlib.Core.Bool.{Bool, false, ◌||◌}
use mathlib.Core.Option.{Option, none, some}
use mathlib.Core.List.{List, [], ◌∷◌, map, foldl, zip}
use native.Mathlib.Omega.{arith}
use post_trade_reconciliatio.Prelude.Tests.{if◌then◌else◌}
use post_trade_reconciliatio.Prelude.Lists.{any, All}
use post_trade_reconciliatio.Prelude.Str.{Eq, same}

abbrev pub Dict {ℓ κ} : Type ℓ → Type κ → Type (ℓ ⊔ κ)
Dict K V = List (K × V)

module _ {ℓ κ} {K : Type ℓ} {V : Type κ} where
  abbrev pub keys : Dict K V → List K
  keys = map (λ e. e.0)

  abbrev pub values : Dict K V → List V
  values = map (λ e. e.1)

module _ {ℓ κ} {K : Type ℓ} {V : Type κ} ⦃eq : Eq K⦄ where
  -- `d.get(k)`
  abbrev pub lookup : K → Dict K V → Option V
  lookup k [] = none
  lookup k (e ∷ d) = if same e.0 k then some e.1 else lookup k d

  -- `d.get(k, v)`
  abbrev pub lookup_or : K → V → Dict K V → V
  lookup_or k v d = elim (lookup k d) [ none ↦ v | some w ↦ w ]

  -- `d[k] = v`
  abbrev pub insert : K → V → Dict K V → Dict K V
  insert k v [] = (k, v) ∷ []
  insert k v (e ∷ d) = if same e.0 k then (k, v) ∷ d else e ∷ insert k v d

  -- `d.pop(k, None)`
  abbrev pub erase : K → Dict K V → Dict K V
  erase gone [] = []
  erase gone (entry ∷ rest) = if same entry.0 gone then rest else entry ∷ erase gone rest

  -- `dict(items)`: a later item with the same key wins.
  abbrev pub update : Dict K V → List (K × V) → Dict K V
  update = foldl (λ d e. insert e.0 e.1 d)

  -- A key is found with its new value, any other as before.
  pub lookup-insert :
      (asked set : K) (new : V) (d : Dict K V)
      → lookup asked (insert set new d) ≡ (if same set asked then some new else lookup asked d)
  lookup-insert asked set new [] = refl
  lookup-insert asked set new (entry ∷ d) = ground (arith, lookup-insert asked set new d)

  pub lookup_or-insert :
      (j k : K) (v w : V) (d : Dict K V)
      → lookup_or j v (insert k w d) ≡ (if same k j then w else lookup_or j v d)
  lookup_or-insert j k v w d = ground (arith, lookup-insert j k w d)

  -- An update by items with other keys leaves a key alone.
  pub lookup-update_absent :
      (k : K) (items : List (K × V)) (d : Dict K V)
      → any (same k) (keys items) ≡ false
      → lookup k (update d items) ≡ lookup k d
  lookup-update_absent k [] d h = refl
  lookup-update_absent k (e ∷ items) d h =
      ground (arith, lookup-update_absent k items (insert e.0 e.1 d), lookup-insert k e.0 e.1 d)

  -- The keys of a dict are tested like the keys that were put in.
  any-keys-insert :
      (p : K → Bool) (k : K) (v : V) (d : Dict K V)
      → any p (keys (insert k v d)) ≡ (p k || any p (keys d))
  any-keys-insert p k v [] = refl
  any-keys-insert p k v (e ∷ d) = ground (arith, any-keys-insert p k v d)

  pub any-keys-update :
      (p : K → Bool) (items : List (K × V)) (d : Dict K V)
      → any p (keys (update d items)) ≡ (any p (keys d) || any p (keys items))
  any-keys-update p [] d = ground arith
  any-keys-update p (e ∷ items) d =
      ground (arith, any-keys-update p items (insert e.0 e.1 d), any-keys-insert p e.0 e.1 d)

  -- The key has a value.
  abbrev pub HasKey : Dict K V → K → Type κ
  HasKey d k = (v : V) × (lookup k d ≡ some v)

  HasKey-cons : (e : K × V) (d : Dict K V) (k : K) → HasKey d k → HasKey (e ∷ d) k
  HasKey-cons e d k (v, h) = elim (eq.dec e.0 k) [
    | yes p ↦ (e.1, ground arith)
    | no p ↦ (v, ground arith)
  ]

  All-HasKey-cons :
      (e : K × V) (d : Dict K V) (ks : List K) → All (HasKey d) ks → All (HasKey (e ∷ d)) ks
  All-HasKey-cons e d [] h = tt
  All-HasKey-cons e d (k ∷ ks) h = (HasKey-cons e d k h.0, All-HasKey-cons e d ks h.1)

  -- `d[k]` raises for no key `k` of `d`.
  pub keys-HasKey : (d : Dict K V) → All (HasKey d) (keys d)
  keys-HasKey [] = tt
  keys-HasKey (e ∷ d) = ((e.1, ground arith), All-HasKey-cons e d (keys d) (keys-HasKey d))

module _ {ℓ κ λ'} {A : Type λ'} {K : Type ℓ} {V : Type κ} where
  pub keys-zip : (f : A → K) (g : A → V) (xs : List A) → keys (zip (map f xs) (map g xs)) ≡ map f xs
  unfolding zip
  keys-zip f g [] = refl
  keys-zip f g (x ∷ xs) = ap (◌∷◌ (f x)) (keys-zip f g xs)
