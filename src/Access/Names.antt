-- ===== src/Access/Names.antt =====
-- The spelling of role names, and the vocabularies of the two planes (app/roles.py).
use pmvp.Prelude.{
  ℕ, ◌≡◌, refl, ◌⊎◌, inl, inr, true, false, List, [], ◌∷◌, ◌&&◌, arith, Bool-cases, if◌then◌else◌,
}
use pmvp.Text.{
  Text, text_eq, eq_of_text_eq, strip, lower, lstrip, rstrip, is_empty, is_space, lower_char,
}
use pmvp.Access.{
  normalise_role, resolve_alias, member, tenant_roles, is_platform_role, is_tenant_role,
  chrisnat_admin, chrisnat_reviewer, client_admin, client_preparer,
}

lower_char_idem : (c : ℕ) → lower_char (lower_char c) ≡ lower_char c
lower_char_idem c = ground arith

lower_idem : (s : Text) → lower (lower s) ≡ lower s
unfolding lower
lower_idem [] = refl
lower_idem (c ∷ s) = cc (lower_char_idem c, lower_idem s)

is_space-lower_char : (c : ℕ) → is_space (lower_char c) ≡ is_space c
is_space-lower_char c = ground arith

is_empty-lower : (s : Text) → is_empty (lower s) ≡ is_empty s
unfolding lower
is_empty-lower [] = refl
is_empty-lower (c ∷ s) = refl

-- Trimming and lowering commute with one another.
lstrip-lower : (s : Text) → lstrip (lower s) ≡ lower (lstrip s)
unfolding lower lstrip
lstrip-lower [] = refl
lstrip-lower (c ∷ s) = ground (arith, lstrip-lower s, is_space-lower_char c)

rstrip_step : ℕ → Text → Text
rstrip_step c rest = if is_space c && is_empty rest then [] else c ∷ rest

rstrip_step-lower :
    (c : ℕ) (t : Text) → rstrip_step (lower_char c) (lower t) ≡ lower (rstrip_step c t)
unfolding rstrip_step
rstrip_step-lower c t =
    rw (is_space-lower_char c, is_empty-lower t)
      (elim (Bool-cases (is_space c && is_empty t)) [
        | inl e ↦ rw e (unfold lower in refl)
        | inr e ↦ rw e (unfold lower in refl)
      ])

rstrip-lower : (s : Text) → rstrip (lower s) ≡ lower (rstrip s)
unfolding lower rstrip rstrip_step
rstrip-lower [] = refl
rstrip-lower (c ∷ s) = rw (rstrip-lower s) (rstrip_step-lower c (rstrip s))

rstrip-cons : (c : ℕ) (s : Text) → rstrip (c ∷ s) ≡ rstrip_step c (rstrip s)
unfolding rstrip rstrip_step
rstrip-cons c s = refl

rstrip_step-other :
    (c : ℕ) (t : Text) → is_space c ≡ false → lstrip (rstrip_step c t) ≡ rstrip_step c t
unfolding rstrip_step lstrip
rstrip_step-other c t e = rw e (rw e refl)

lstrip-space : (c : ℕ) (s : Text) → is_space c ≡ true → lstrip (c ∷ s) ≡ lstrip s
unfolding lstrip
lstrip-space c s e = rw e refl

lstrip-other : (c : ℕ) (s : Text) → is_space c ≡ false → lstrip (c ∷ s) ≡ c ∷ s
unfolding lstrip
lstrip-other c s e = rw e refl

rstrip_step_idem : (c : ℕ) (t : Text) → rstrip t ≡ t → rstrip (rstrip_step c t) ≡ rstrip_step c t
unfolding rstrip_step
rstrip_step_idem c t h = elim (Bool-cases (is_space c && is_empty t)) [
  | inl e ↦ rw e (unfold rstrip in refl)
  | inr e ↦ rw e (unfold rstrip in (rw (h, e) refl))
]

rstrip_idem : (s : Text) → rstrip (rstrip s) ≡ rstrip s
unfolding rstrip_step
rstrip_idem [] = unfold rstrip in refl
rstrip_idem (c ∷ s) = rw (rstrip-cons c s) (rstrip_step_idem c (rstrip s) (rstrip_idem s))

-- A trimmed text is left alone by trimming its front again, after its end has been trimmed.
lstrip-rstrip-lstrip : (s : Text) → lstrip (rstrip (lstrip s)) ≡ rstrip (lstrip s)
lstrip-rstrip-lstrip [] = unfold lstrip rstrip in refl
lstrip-rstrip-lstrip (c ∷ s) = elim (Bool-cases (is_space c)) [
  | inl e ↦ rw (lstrip-space c s e) (lstrip-rstrip-lstrip s)
  | inr e ↦ rw (lstrip-other c s e, rstrip-cons c s) (rstrip_step-other c (rstrip s) e)
]

strip_idem : (s : Text) → strip (strip s) ≡ strip s
unfolding strip
strip_idem s = rw (lstrip-rstrip-lstrip s) (rstrip_idem (lstrip s))

strip-lower : (s : Text) → strip (lower s) ≡ lower (strip s)
unfolding strip
strip-lower s = rw (lstrip-lower s) (rstrip-lower (lstrip s))

-- What `normalise_role` does before it folds aliases is done once and for all.
plain-stable : (s : Text) → lower (strip (lower (strip s))) ≡ lower (strip s)
plain-stable s = rw (strip-lower (strip s), strip_idem s) (lower_idem (strip s))

resolve_alias-stable :
    (r : Text)
    → lower (strip r) ≡ r
    → resolve_alias (lower (strip (resolve_alias r))) ≡ resolve_alias r
unfolding resolve_alias
resolve_alias-stable r h = elim (Bool-cases (text_eq r chrisnat_admin)) [
  | inl e ↦ rw e (unfold strip lower in refl)
  | inr e ↦ elim (Bool-cases (text_eq r chrisnat_reviewer)) [
    | inl f ↦ rw (e, f) (unfold strip lower in refl)
    | inr f ↦ rw (e, f) (rw h (rw (e, f) refl))
  ]
]

-- Normalising a role's name twice is normalising it once, so the permissions of a stored role do
-- not depend on where it was normalised.
normalise_role_idem : (role : Text) → normalise_role (normalise_role role) ≡ normalise_role role
unfolding normalise_role
normalise_role_idem role = resolve_alias-stable (lower (strip role)) (plain-stable role)

member-cases :
    (role r : Text) (group : List Text)
    → member role (r ∷ group) ≡ true
    → (role ≡ r) ⊎ (member role group ≡ true)
unfolding member
member-cases role r group h = elim (Bool-cases (text_eq role r)) [
  | inl e ↦ inl (eq_of_text_eq role r e)
  | inr e ↦ inr (ground arith)
]

-- The two names of the tenant plane.
pub tenant-cases :
    (role : Text)
    → member role tenant_roles ≡ true
    → (role ≡ client_admin) ⊎ (role ≡ client_preparer)
tenant-cases role h = elim (member-cases role client_admin (client_preparer ∷ []) h) [
  | inl e ↦ inl e
  | inr f ↦ elim (member-cases role client_preparer [] f) [
    | inl e ↦ inr e
    | inr g ↦ absurd (unfold member in cc)
  ]
]

-- No role's name belongs to both planes.
planes_apart : (role : Text) → is_tenant_role role ≡ true → is_platform_role role ≡ false
unfolding is_tenant_role is_platform_role
planes_apart role h = elim (tenant-cases (normalise_role role) h) [
  | inl e ↦ rw e refl
  | inr e ↦ rw e refl
]
