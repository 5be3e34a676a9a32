-- ===== src/Loop/Serving.antt =====
-- Each of the two loops of a turn goes as `SetUp` and `Served` say, or throws as they allow.
use nju_networking_lab.Base.{
  ℕ, ◌≡◌, ◌≢◌, ◌⊎◌, refl, inl, inr, arith, List, [], ◌∷◌, none, some, Bool, true, false, not, ◌&&◌,
  ◌||◌, ◌==◌, Bool-cases, Option-cases,
}
use nju_networking_lab.Descriptor.{FileDescriptor}
use nju_networking_lab.Loop.{
  Direction, input, output, Rule, Polled, service_count, is_over, set_up, is_ready, serve,
  serve_all,
}
use nju_networking_lab.Loop.Turn.{
  AtEnd, served, readiness, IsOver, SetUp, set_up_done, leaves, stays, SetUpThrows, cancel_throws,
  after_leaves, after_stays, IsReady, IsHung, HasServed, Served, served_done, hangs_up, is_called,
  is_idle, ServeThrows, no_answer, has_error, hung_cancel_throws, callback_throws, busy_wait,
  after_hung, after_called, after_idle,
}

-- A test that decides a statement.
abbrev Decides : Bool → Type 0 → Type 0
Decides b P = ((b ≡ true) × P) ⊎ ((b ≡ false) × ¬ P)

AtEnd-cases :
    (d : Direction) (fd : FileDescriptor)
    → Decides
        ((elim d as (λ x. Bool) [ input ↦ true | output ↦ false ] && fd.eof) || fd.closed)
        (AtEnd d fd ⊎ (fd.closed ≡ true))
AtEnd-cases input fd = elim (Bool-cases fd.eof) [
  | inl e ↦ inl (ground (arith, e), inl e)
  | inr e ↦ elim (Bool-cases fd.closed) [
    | inl c ↦ inl (ground (arith, c), inr c)
    | inr c ↦ inr (ground (arith, e, c), λ h. ground (arith, h, e, c))
  ]
]
AtEnd-cases output fd = elim (Bool-cases fd.closed) [
  | inl c ↦ inl (ground (arith, c), inr c)
  | inr c ↦
      inr (
        ground (arith, c),
        λ h. elim h [ inl x ↦ absurd x | inr t ↦ absurd (ground (arith, c, t)) ],
      )
]

readiness_lem :
    {E : Type 0} (d : Direction) (p : Polled E)
    → elim d as (λ x. Bool) [ input ↦ p.in_ready | output ↦ p.out_ready ] ≡ readiness d p
readiness_lem input p = refl
readiness_lem output p = refl

served_lem :
    (d : Direction) (fd : FileDescriptor)
    → elim d as (λ x. ℕ) [ input ↦ fd.read_count | output ↦ fd.write_count ] ≡ served d fd
served_lem input fd = refl
served_lem output fd = refl

module _ {S E : Type 0} where
  is_over_cases : (r : Rule S E) (s : S) → Decides (is_over r s) (IsOver r s)
  unfolding is_over
  is_over_cases r s = AtEnd-cases r.direction (r.fd s)

  is_ready_cases :
      (r : Rule S E) (i : Bool) (p : Polled E) → Decides (is_ready r i p) (IsReady r i p)
  unfolding is_ready
  is_ready_cases r i p = rw (readiness_lem r.direction p) (decided i (readiness r.direction p))
    where
      decided : (a b : Bool) → Decides (a && b) ((a ≡ true) × (b ≡ true))
      decided true true = inl (refl, (refl, refl))
      decided true false = inr (refl, λ h. ground (arith, h))
      decided false b = inr (refl, λ h. ground (arith, h))

  IsHung-cases :
      (r : Rule S E) (i : Bool) (p : Polled E)
      → ¬ IsReady r i p
      → Decides (p.hup && (i && not false)) (IsHung r i p)
  IsHung-cases r i p idle = elim (Bool-cases p.hup) [
    | inr h ↦ inr (ground (arith, h), λ x. absurd (ground (arith, h, x.1)))
    | inl h ↦ elim (Bool-cases i) [
      | inr f ↦ inr (ground (arith, f), λ x. absurd (ground (arith, f, x.0)))
      | inl t ↦ inl (ground (arith, h, t), (t, h, idle))
    ]
  ]

  -- The test for a busy wait.
  busy_cases :
      (r : Rule S E) (s s' : S)
      → ((((service_count r s == service_count r s') && r.interest s') ≡ true) × ¬ HasServed r s s')
        ⊎ ((((service_count r s == service_count r s') && r.interest s') ≡ false)
            × HasServed r s s')
  unfolding service_count
  busy_cases r s s' =
      rw (served_lem r.direction (r.fd s), served_lem r.direction (r.fd s'))
        (decided (served r.direction (r.fd s)) (served r.direction (r.fd s')) (r.interest s'))
    where
      decided :
          (m n : ℕ) (b : Bool)
          → ((((m == n) && b) ≡ true) × ¬ ((m ≢ n) ⊎ (b ≡ false)))
            ⊎ ((((m == n) && b) ≡ false) × ((m ≢ n) ⊎ (b ≡ false)))
      decided m n b = elim (Bool-cases (m == n)) [
        | inr f ↦ inr (ground (arith, f), inl (λ e. absurd (ground (arith, f, e))))
        | inl t ↦ elim (Bool-cases b) [
          | inr g ↦ inr (ground (arith, g), inr g)
          | inl g ↦ inl (
            ground (arith, t, g),
            λ h. elim h [ inl ne ↦ ne (ground (arith, t)) | inr f ↦ absurd (ground (arith, f, g)) ],
          )
        ]
      ]

  abbrev pub SetUpOutcome : List (Rule S E) → S → Type 0
  SetUpOutcome rules s =
      ((rs : List (Rule S E × Bool)) × (s' : S) × (set_up rules s ≡ some (rs, s'))
        × SetUp rules s rs s')
      ⊎ ((set_up rules s ≡ none) × SetUpThrows rules s)

  pub set_up_lem : (rules : List (Rule S E)) (s : S) → SetUpOutcome rules s
  unfolding set_up
  set_up_lem [] s = inl ([], s, refl, set_up_done)
  set_up_lem (r ∷ rules) s = elim (is_over_cases r s) [
    | inl (b, over) ↦ elim (Option-cases (r.cancel s)) [
      | inl e ↦ inr (rw (b) (rw (e) refl), cancel_throws over e)
      | inr (s1, e) ↦ elim (set_up_lem rules s1) [
        | inl (rs, s2, run, t) ↦ inl (rs, s2, rw (b) (rw (e) run), leaves over e t)
        | inr (run, t) ↦ inr (rw (b) (rw (e) run), after_leaves over e t)
      ]
    ]
    | inr (b, on) ↦ elim (set_up_lem rules s) [
      | inl (rs, s2, run, t) ↦ inl ((r, r.interest s) ∷ rs, s2, rw (b) (rw (run) refl), stays on t)
      | inr (run, t) ↦ inr (rw (b) (rw (run) refl), after_stays on t)
    ]
  ]

  abbrev pub ServeOutcome : List (Rule S E × Bool) → List (Polled E) → S → Type 0
  ServeOutcome rs ps s =
      ((out : List (Rule S E)) × (s' : S) × (serve_all rs ps s ≡ some (out, s'))
        × Served rs ps s out s')
      ⊎ ((serve_all rs ps s ≡ none) × ServeThrows rs ps s)

  pub serve_all_lem :
      (rs : List (Rule S E × Bool)) (ps : List (Polled E)) (s : S) → ServeOutcome rs ps s
  unfolding serve_all serve
  serve_all_lem [] ps s = inl ([], s, refl, served_done)
  serve_all_lem (ri ∷ rs) [] s = inr (refl, no_answer)
  serve_all_lem ((r, i) ∷ rs) (p ∷ ps) s = elim (Bool-cases p.error) [
    | inl e ↦ inr (rw (e) refl, has_error e)
    | inr fine ↦ elim (is_ready_cases r i p) [
      | inl (b, ready) ↦
          let on : (p.hup && (i && not true)) ≡ false = ground arith in
          elim (Option-cases (r.callback p.given s)) [
            | inl e ↦ inr (simp (fine, b, on, e) refl, callback_throws ready e)
            | inr (s1, e) ↦ elim (busy_cases r s s1) [
              | inl (w, busy) ↦ inr (simp (fine, b, on, e, w) refl, busy_wait ready e busy)
              | inr (w, has) ↦ elim (serve_all_lem rs ps s1) [
                | inl (out, s2, run, t) ↦
                    inl (
                      r ∷ out,
                      s2,
                      simp (fine, b, on, e, w, run) refl,
                      is_called fine ready e has t,
                    )
                | inr (run, t) ↦
                    inr (simp (fine, b, on, e, w, run) refl, after_called ready e has t)
              ]
            ]
          ]
      | inr (b, idle) ↦ elim (IsHung-cases r i p idle) [
        | inl (h, hung) ↦ elim (Option-cases (r.cancel s)) [
          | inl e ↦ inr (simp (fine, b, h, e) refl, hung_cancel_throws hung e)
          | inr (s1, e) ↦ elim (serve_all_lem rs ps s1) [
            | inl (out, s2, run, t) ↦
                inl (out, s2, simp (fine, b, h, e, run) refl, hangs_up fine hung e t)
            | inr (run, t) ↦ inr (simp (fine, b, h, e, run) refl, after_hung hung e t)
          ]
        ]
        | inr (h, on) ↦ elim (serve_all_lem rs ps s) [
          | inl (out, s2, run, t) ↦
              inl (r ∷ out, s2, simp (fine, b, h, run) refl, is_idle fine idle on t)
          | inr (run, t) ↦ inr (simp (fine, b, h, run) refl, after_idle idle on t)
        ]
      ]
    ]
  ]
