-- ===== src/Startup/Laws.antt =====
-- A start makes the calls of a plan, in their order, up to the first that fails.
use gardener_extension_shoot.Common.{
  String, [], ◌∷◌, ◌++◌, none, Bool, true, false, Option-cases, ◌≢◌, inl, inr, ◌≡◌, refl, sym, ap,
  ◌∙◌, subst, append_assoc, append-nil,
}
use gardener_extension_shoot.Common.Outcome.{Outcome, ok, err, panic, check}
use gardener_extension_shoot.Common.Effect.{Effect, proceed, ◌>>=◌, ◌>>◌}
use gardener_extension_shoot.Gardener.{Error, wrap_outcome}
use gardener_extension_shoot.Startup.{
  Call, use_kubeconfig, apply_client_connection, install_scheme, apply_options, Calls, Environment,
  note, returns, call, call_wrapped, call_formatted, format_outcome,
}

-- the calls that return no error
abbrev pub can_fail : {C : Type 0} → Call C → Bool
can_fail (use_kubeconfig path) = false
can_fail (apply_client_connection qps burst) = false
can_fail (install_scheme name) = false
can_fail (apply_options name) = false
can_fail _ = true

module _ {C : Type 0} (environment : Environment C) where
  -- Each of the calls has succeeded, the first behind the calls `before`.
  abbrev pub AllSucceed : Calls C → Calls C → Type 0
  AllSucceed before [] = Unit {0}
  AllSucceed before (c ∷ cs) =
      (can_fail c ≡ true → environment.failure before c ≡ none) × AllSucceed (before ++ c ∷ []) cs

  -- The last of the calls has failed, and no other.
  pub record LastFails (before made : Calls C) : Type 0 where
    pub others : Calls C
    pub last : Call C
    pub is_last : made ≡ others ++ last ∷ []
    pub others_succeed : AllSucceed before others
    pub fails : environment.failure (before ++ others) last ≢ none

  -- How it ends, by the calls that are made and those of the plan that are left.
  abbrev pub Ends : {A : Type 0} → Calls C → Calls C → A → Outcome Error A → Calls C → Type 0
  Ends before made a (ok b) rest = (b ≡ a) × (rest ≡ []) × AllSucceed before made
  Ends before made a (err e) rest = LastFails before made
  Ends before made a panic rest = ⊥

  -- What is done of a plan.
  pub record Progress {A : Type 0} (plan : Calls C) (a : A) (before : Calls C)
      (result : Outcome Error A × Calls C) : Type 0 where
    pub made : Calls C
    pub rest : Calls C
    pub in_order : made ++ rest ≡ plan
    pub recorded : result.1 ≡ before ++ made
    pub ends : Ends before made a result.0 rest

  abbrev pub Follows : {A : Type 0} → Effect Error (Calls C) A → Calls C → A → Type 0
  Follows m plan a = (before : Calls C) → Progress plan a before (m before)

  AllSucceed-append :
      (before xs ys : Calls C)
      → AllSucceed before xs
      → AllSucceed (before ++ xs) ys
      → AllSucceed before (xs ++ ys)
  AllSucceed-append before [] ys hx hy = rw (← append-nil before) hy
  AllSucceed-append before (c ∷ xs) ys hx hy = (
    hx.0,
    AllSucceed-append (before ++ c ∷ []) xs ys hx.1 (rw (append_assoc before (c ∷ []) xs) hy),
  )

  -- The ends of what is done behind other calls.
  Ends-append :
      {B : Type 0} (before xs ys rest : Calls C) (b : B) (o : Outcome Error B)
      → AllSucceed before xs
      → Ends (before ++ xs) ys b o rest
      → Ends before (xs ++ ys) b o rest
  Ends-append before xs ys rest b (ok c) hx h = (h.0, h.1, AllSucceed-append before xs ys hx h.2)
  Ends-append before xs ys rest b (err e) hx h = record {
    others = xs ++ h.others;
    last = h.last;
    is_last = ap (λ zs. xs ++ zs) h.is_last ∙ sym (append_assoc xs h.others (h.last ∷ []));
    others_succeed = AllSucceed-append before xs h.others hx h.others_succeed;
    fails = rw (← append_assoc before xs h.others) h.fails;
  }
  Ends-append before xs ys rest b panic hx h = h

  proceed-Follows :
      {A B : Type 0} (f : A → Effect Error (Calls C) B) (plan next : Calls C) (a : A) (b : B)
      → Follows (f a) next b
      → (before : Calls C) (o : Outcome Error A) (after : Calls C)
      → Progress plan a before (o, after)
      → Progress (plan ++ next) b before (proceed f o after)
  proceed-Follows f plan next a b follows before (ok c) after first =
      let second : Progress next b after (f c after) =
        subst (λ x. Progress next b after (f x after)) (sym first.ends.0) (follows after) in
      let all_made : first.made ≡ plan =
        sym (append-nil first.made)
        ∙ ap (λ r. first.made ++ r) (sym first.ends.1)
        ∙ first.in_order in
      record {
        made = first.made ++ second.made;
        rest = second.rest;
        in_order =
            append_assoc first.made second.made second.rest
            ∙ ap (λ r. first.made ++ r) second.in_order
            ∙ ap (λ p. p ++ next) all_made;
        recorded =
            second.recorded
            ∙ ap (λ t. t ++ second.made) first.recorded
            ∙ append_assoc before first.made second.made;
        ends = Ends-append before first.made second.made second.rest b (f c after).0 first.ends.2 (
            subst (λ t. Ends t second.made b (f c after).0 second.rest) first.recorded second.ends);
      }
  proceed-Follows f plan next a b follows before (err e) after first = record {
    made = first.made;
    rest = first.rest ++ next;
    in_order = sym (append_assoc first.made first.rest next) ∙ ap (λ p. p ++ next) first.in_order;
    recorded = first.recorded;
    ends = first.ends;
  }
  proceed-Follows f plan next a b follows before panic after first = absurd first.ends

  pub >>=-Follows :
      {A B : Type 0} (m : Effect Error (Calls C) A) (f : A → Effect Error (Calls C) B)
      (plan next : Calls C) (a : A) (b : B)
      → Follows m plan a
      → Follows (f a) next b
      → Follows (m >>= f) (plan ++ next) b
  >>=-Follows m f plan next a b first follows before =
      proceed-Follows f plan next a b follows before (m before).0 (m before).1 (first before)

  pub >>-Follows :
      {B : Type 0} (m : Effect Error (Calls C) (Unit {0})) (k : Effect Error (Calls C) B)
      (plan next : Calls C) (b : B)
      → Follows m plan tt
      → Follows k next b
      → Follows (m >> k) (plan ++ next) b
  >>-Follows m k plan next b = >>=-Follows m (λ _. k) plan next tt b

  pub returns-Follows : {A : Type 0} (a : A) → Follows (returns a) [] a
  returns-Follows a before = record {
    made = [];
    rest = [];
    in_order = refl;
    recorded = sym (append-nil before);
    ends = (refl, refl, tt);
  }

  -- The progress of one call.
  one-Progress :
      (c : Call C) (before : Calls C) (o : Outcome Error (Unit {0}))
      → Ends before (c ∷ []) tt o []
      → Progress (c ∷ []) tt before (o, before ++ c ∷ [])
  one-Progress c before o ends = record {
    made = c ∷ [];
    rest = [];
    in_order = refl;
    recorded = refl;
    ends = ends;
  }

  LastFails-one :
      (before : Calls C) (c : Call C)
      → environment.failure before c ≢ none
      → LastFails before (c ∷ [])
  LastFails-one before c fails = record {
    others = [];
    last = c;
    is_last = refl;
    others_succeed = tt;
    fails = rw (append-nil before) fails;
  }

  pub note-Follows : (c : Call C) → can_fail c ≡ false → Follows (note c) (c ∷ []) tt
  note-Follows c never before = one-Progress c before (ok tt) (refl, refl, (λ can. cc, tt))

  pub call-Follows : (c : Call C) → Follows (call environment c) (c ∷ []) tt
  call-Follows c before =
      one-Progress c before (check (environment.failure before c))
        (elim (Option-cases (environment.failure before c)) [
          | inl e ↦ rw e (refl, refl, (λ can. e, tt))
          | inr (x, e) ↦ rw e (LastFails-one before c (cc))
        ])

  pub call_wrapped-Follows :
      (text : String) (c : Call C) → Follows (call_wrapped environment text c) (c ∷ []) tt
  call_wrapped-Follows text c before =
      one-Progress c before (wrap_outcome text (check (environment.failure before c)))
        (elim (Option-cases (environment.failure before c)) [
          | inl e ↦ rw e (refl, refl, (λ can. e, tt))
          | inr (x, e) ↦ rw e (LastFails-one before c (cc))
        ])

  pub call_formatted-Follows :
      (text : String) (c : Call C) → Follows (call_formatted environment text c) (c ∷ []) tt
  call_formatted-Follows text c before =
      one-Progress c before
        (format_outcome environment.error_text text (check (environment.failure before c)))
        (elim (Option-cases (environment.failure before c)) [
          | inl e ↦ rw e (refl, refl, (λ can. e, tt))
          | inr (x, e) ↦ rw e (LastFails-one before c (cc))
        ])

  -- A call in front.
  module _ {B : Type 0} (k : Effect Error (Calls C) B) (next : Calls C) (b : B)
      (follows : Follows k next b) where
    pub call->>-Follows : (c : Call C) → Follows (call environment c >> k) (c ∷ next) b
    call->>-Follows c = >>-Follows (call environment c) k (c ∷ []) next b (call-Follows c) follows

    pub call_wrapped->>-Follows :
        (text : String) (c : Call C) → Follows (call_wrapped environment text c >> k) (c ∷ next) b
    call_wrapped->>-Follows text c =
        >>-Follows (call_wrapped environment text c) k (c ∷ []) next b (call_wrapped-Follows text c)
          follows

    pub call_formatted->>-Follows :
        (text : String) (c : Call C) → Follows (call_formatted environment text c >> k) (c ∷ next) b
    call_formatted->>-Follows text c =
        >>-Follows (call_formatted environment text c) k (c ∷ []) next b
          (call_formatted-Follows text c) follows

    pub note->>-Follows : (c : Call C) → can_fail c ≡ false → Follows (note c >> k) (c ∷ next) b
    note->>-Follows c never = >>-Follows (note c) k (c ∷ []) next b (note-Follows c never) follows
