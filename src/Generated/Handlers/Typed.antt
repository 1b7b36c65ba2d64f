-- ===== src/Generated/Handlers/Typed.antt =====
-- What the converted handlers return, and when an object is updated on a change.
use disk_manager.Base.{
  ◌≡◌, ◌≢◌, ◌↔◌, Bool-cases, ◌⊎◌, inl, inr, Bool, true, Option, none, some, arith, refl, subst,
}
use disk_manager.Text.{Text, equals}
use disk_manager.Text.Prefix.{equals_iff}
use disk_manager.Cluster.{ApiError}
use disk_manager.Effects.{M, Run, done, panicked, starved}
use disk_manager.Generated.{Resource}
use disk_manager.Generated.Handlers.{
  Object, nil, pointer, another, Result, Handler, as_object, new_or, from_handler_to_handler,
  update_deep_copy_on_change,
}

as_object-not-nil : {T : Type 0} (o : Option T) → as_object o ≢ pointer none
as_object-not-nil none e = cc
as_object-not-nil (some v) e = cc

-- A handler that is called for nil, for a nil pointer or for an object is called with the object or
-- with nil; its object and error are returned, and a nil pointer never as an interface value.
pub from_handler_to_handler-typed :
    {T S : Type 0} (sync : Handler T S) (key : Text) (o r : Option T) (err : Option ApiError)
    (i : Object T) (s s' : S)
    → (i ≡ as_object o) ⊎ (i ≡ pointer o)
    → sync key o s ≡ done ((r, err), s')
    → (from_handler_to_handler sync key i s ≡ done ((as_object r, err), s'))
      × (as_object r ≢ pointer none)
unfolding from_handler_to_handler
from_handler_to_handler-typed sync key none r err i s s' (inl given) ran =
    (ground (arith, given, ran), as_object-not-nil r)
from_handler_to_handler-typed sync key (some v) r err i s s' (inl given) ran =
    (ground (arith, given, ran), as_object-not-nil r)
from_handler_to_handler-typed sync key o r err i s s' (inr given) ran =
    (ground (arith, given, ran), as_object-not-nil r)

-- An object of the resource's type, or nil.
abbrev pub IsTyped : {T : Type 0} → Object T → Type 0
IsTyped i = i ≢ another

as_object-IsTyped : {T : Type 0} (o : Option T) → IsTyped (as_object o)
as_object-IsTyped none e = cc
as_object-IsTyped (some v) e = cc

module _ {T S : Type 0} where
  -- What is known of a converted run, by the run of the handler: it panics only if that does, and what
  -- it returns is typed, and no nil pointer in an interface.
  abbrev pub Sound : Run (Result (Option T) × S) → Run (Result (Object T) × S) → Type 0
  Sound called run =
      (run ≡ panicked → called ≡ panicked)
      × ((r : Object T) (err : Option ApiError) (s' : S)
          → run ≡ done ((r, err), s')
          → IsTyped r × (r ≢ pointer none))

  converted-Sound :
      (called : Run (Result (Option T) × S))
      → Sound called (elim called [
        | done ((r, err), s') ↦ done ((as_object r, err), s')
        | panicked ↦ panicked
        | starved ↦ starved
      ])
  converted-Sound (done ((o, e), t)) = (
    λ h. absurd (cc),
    λ r err s' h.
        let same : as_object o ≡ r = cc in
        (
          subst IsTyped same (as_object-IsTyped o),
          subst (λ x. x ≢ pointer none) same (as_object-not-nil o),
        ),
  )
  converted-Sound panicked = (λ h. refl, λ r err s' h. absurd (cc))
  converted-Sound starved = (λ h. absurd (cc), λ r err s' h. absurd (cc))

  -- The converted handler is type safe: for nil, a nil pointer or an object of the resource it panics only
  -- if the handler panics for the same object, and it returns nil or an object of the resource, never
  -- a nil pointer; for an object of another type it panics.
  pub from_handler_to_handler-Sound :
      (sync : Handler T S) (key : Text) (i : Object T) (s : S)
      → (IsTyped i
          → (o : Option T) × ((i ≡ as_object o) ⊎ (i ≡ pointer o))
            × Sound (sync key o s) (from_handler_to_handler sync key i s))
        × (i ≡ another → from_handler_to_handler sync key i s ≡ panicked)
  unfolding from_handler_to_handler
  from_handler_to_handler-Sound sync key nil s =
      (λ typed. (none, inl refl, converted-Sound (sync key none s)), λ h. absurd (cc))
  from_handler_to_handler-Sound sync key (pointer o) s =
      (λ typed. (o, inr refl, converted-Sound (sync key o s)), λ h. absurd (cc))
  from_handler_to_handler-Sound sync key another s = (λ typed. absurd (typed refl), λ h. refl)

module _ (R : Resource) {S : Type 0} (semantic_equal : R.Obj → R.Obj → Bool)
    (update : R.Obj → M S (Result R.Obj))
    (handler : R.Obj → M S (R.Obj × Result (Option R.Obj))) where
  -- With a comparison that finds each object equal to itself: a handler that returns the object as it
  -- was, or nil and leaves the copy as it was, causes no update, and the object is returned with the
  -- handler's error.
  pub update_deep_copy_on_change-unchanged :
      ((obj : R.Obj) → semantic_equal obj obj ≡ true)
      → (obj left : R.Obj) (r : Option R.Obj) (err : Option ApiError) (s s₁ : S)
      → handler obj s ≡ done ((left, (r, err)), s₁)
      → new_or r left ≡ obj
      → update_deep_copy_on_change R semantic_equal update (some obj) handler s
        ≡ done ((some obj, err), s₁)
  unfolding update_deep_copy_on_change
  update_deep_copy_on_change-unchanged equal obj left r err s s₁ ran same =
      ground (arith, ran, same, equal obj)

  -- When the handler returns an error, and an update of its object would succeed, which is the one it
  -- returns, or the copy as it leaves it if it returns nil: the call returns the error just when it makes
  -- no update, that is when that object has another version or is equal to the one before. A change and an error together are answered by no error.
  pub update_deep_copy_on_change-error :
      (obj left : R.Obj) (r : Option R.Obj) (e : ApiError) (u : R.Obj) (s s₁ s₂ : S)
      → handler obj s ≡ done ((left, (r, some e)), s₁)
      → update (new_or r left) s₁ ≡ done ((u, none), s₂)
      → ((o : Option R.Obj) × (s' : S) × (update_deep_copy_on_change R semantic_equal update
              (some obj)
              handler
              s
            ≡ done ((o, some e), s')))
        ↔ ((R.resource_version obj ≢ R.resource_version (new_or r left))
            ⊎ (semantic_equal obj (new_or r left) ≡ true))
  unfolding update_deep_copy_on_change
  update_deep_copy_on_change-error obj left r e u s s₁ s₂ ran answered =
      let copy = new_or r left in
      elim (Bool-cases (equals (R.resource_version obj) (R.resource_version copy))) [
        | inr other ↦ (
          λ returned. inl (λ same.
              ground (arith, other, equals_iff (R.resource_version obj) (R.resource_version copy))),
          λ kept. (some copy, s₁, ground (arith, ran, other)),
        )
        | inl version ↦ elim (Bool-cases (semantic_equal obj copy)) [
          | inl equal ↦
              (λ returned. inr equal, λ kept. (some copy, s₁, ground (arith, ran, version, equal)))
          | inr changed ↦
              let run : update_deep_copy_on_change R semantic_equal update (some obj) handler s
                  ≡ done ((some u, none), s₂) =
                ground (arith, ran, version, changed, answered) in
              (
                λ (o, s', returned). absurd (cc),
                λ kept. elim kept [
                  | inl other ↦ absurd (
                      other
                        ((equals_iff (R.resource_version obj) (R.resource_version copy)).0 version))
                  | inr equal ↦ absurd (cc)
                ],
              )
        ]
      ]
