-- ===== src/Loop/Turn.antt =====
-- What a turn of the loop is, rule by rule: how it goes, and how it throws.
use nju_networking_lab.Base.{ℕ, ◌≡◌, ◌≢◌, ◌⊎◌, List, [], ◌∷◌, none, some, Bool, true, false}
use nju_networking_lab.Descriptor.{FileDescriptor}
use nju_networking_lab.Loop.{Direction, input, output, Rule, Polled}

-- No more can be read from the descriptor.
abbrev pub AtEnd : Direction → FileDescriptor → Type 0
AtEnd input fd = fd.eof ≡ true
AtEnd output fd = ⊥

-- How often it was read, or written.
abbrev pub served : Direction → FileDescriptor → ℕ
served input fd = fd.read_count
served output fd = fd.write_count

abbrev pub readiness : {E : Type 0} → Direction → Polled E → Bool
readiness input p = p.in_ready
readiness output p = p.out_ready

module _ {S E : Type 0} where
  abbrev pub IsOver : Rule S E → S → Type 0
  IsOver r s = AtEnd r.direction (r.fd s) ⊎ ((r.fd s).closed ≡ true)

  -- The rules that are over are canceled and leave; the others say whether they are interested.
  pub data SetUp : List (Rule S E) → S → List (Rule S E × Bool) → S → Type 0 where
    set_up_done : {s : S} → SetUp [] s [] s
    leaves :
        {r : Rule S E} {rules : List (Rule S E)} {rs : List (Rule S E × Bool)} {s s1 s2 : S}
        → IsOver r s
        → r.cancel s ≡ some s1
        → SetUp rules s1 rs s2
        → SetUp (r ∷ rules) s rs s2
    stays :
        {r : Rule S E} {rules : List (Rule S E)} {rs : List (Rule S E × Bool)} {s s2 : S}
        → ¬ IsOver r s
        → SetUp rules s rs s2
        → SetUp (r ∷ rules) s ((r, r.interest s) ∷ rs) s2

  -- Only a cancel throws.
  pub data SetUpThrows : List (Rule S E) → S → Type 0 where
    cancel_throws :
        {r : Rule S E} {rules : List (Rule S E)} {s : S}
        → IsOver r s
        → r.cancel s ≡ none
        → SetUpThrows (r ∷ rules) s
    after_leaves :
        {r : Rule S E} {rules : List (Rule S E)} {s s1 : S}
        → IsOver r s
        → r.cancel s ≡ some s1
        → SetUpThrows rules s1
        → SetUpThrows (r ∷ rules) s
    after_stays :
        {r : Rule S E} {rules : List (Rule S E)} {s : S}
        → ¬ IsOver r s
        → SetUpThrows rules s
        → SetUpThrows (r ∷ rules) s

  -- The rule was interested, and its descriptor is ready for it.
  abbrev pub IsReady : Rule S E → Bool → Polled E → Type 0
  IsReady r interested p = (interested ≡ true) × (readiness r.direction p ≡ true)

  -- The rule was interested, and its descriptor has hung up and is not ready.
  abbrev pub IsHung : Rule S E → Bool → Polled E → Type 0
  IsHung r interested p = (interested ≡ true) × (p.hup ≡ true) × ¬ IsReady r interested p

  -- The callback has read or written, or is not interested any more.
  abbrev pub HasServed : Rule S E → S → S → Type 0
  HasServed r s s' =
      (served r.direction (r.fd s) ≢ served r.direction (r.fd s')) ⊎ (r.interest s' ≡ false)

  pub data Served
      : List (Rule S E × Bool) → List (Polled E) → S → List (Rule S E) → S → Type 0 where
    served_done : {ps : List (Polled E)} {s : S} → Served [] ps s [] s
    hangs_up :
        {r : Rule S E} {i : Bool} {rs : List (Rule S E × Bool)} {p : Polled E}
        {ps : List (Polled E)} {out : List (Rule S E)} {s s1 s2 : S}
        → p.error ≡ false
        → IsHung r i p
        → r.cancel s ≡ some s1
        → Served rs ps s1 out s2
        → Served ((r, i) ∷ rs) (p ∷ ps) s out s2
    is_called :
        {r : Rule S E} {i : Bool} {rs : List (Rule S E × Bool)} {p : Polled E}
        {ps : List (Polled E)} {out : List (Rule S E)} {s s1 s2 : S}
        → p.error ≡ false
        → IsReady r i p
        → r.callback p.given s ≡ some s1
        → HasServed r s s1
        → Served rs ps s1 out s2
        → Served ((r, i) ∷ rs) (p ∷ ps) s (r ∷ out) s2
    is_idle :
        {r : Rule S E} {i : Bool} {rs : List (Rule S E × Bool)} {p : Polled E}
        {ps : List (Polled E)} {out : List (Rule S E)} {s s2 : S}
        → p.error ≡ false
        → ¬ IsReady r i p
        → ¬ IsHung r i p
        → Served rs ps s out s2
        → Served ((r, i) ∷ rs) (p ∷ ps) s (r ∷ out) s2

  -- A descriptor has an error, no answer is left for it, a callback or a cancel throws, or a
  -- callback would be called again and again.
  pub data ServeThrows : List (Rule S E × Bool) → List (Polled E) → S → Type 0 where
    no_answer :
        {ri : Rule S E × Bool} {rs : List (Rule S E × Bool)} {s : S} → ServeThrows (ri ∷ rs) [] s
    has_error :
        {ri : Rule S E × Bool} {rs : List (Rule S E × Bool)} {p : Polled E} {ps : List (Polled E)}
        {s : S}
        → p.error ≡ true
        → ServeThrows (ri ∷ rs) (p ∷ ps) s
    hung_cancel_throws :
        {r : Rule S E} {i : Bool} {rs : List (Rule S E × Bool)} {p : Polled E}
        {ps : List (Polled E)} {s : S}
        → IsHung r i p
        → r.cancel s ≡ none
        → ServeThrows ((r, i) ∷ rs) (p ∷ ps) s
    callback_throws :
        {r : Rule S E} {i : Bool} {rs : List (Rule S E × Bool)} {p : Polled E}
        {ps : List (Polled E)} {s : S}
        → IsReady r i p
        → r.callback p.given s ≡ none
        → ServeThrows ((r, i) ∷ rs) (p ∷ ps) s
    busy_wait :
        {r : Rule S E} {i : Bool} {rs : List (Rule S E × Bool)} {p : Polled E}
        {ps : List (Polled E)} {s s1 : S}
        → IsReady r i p
        → r.callback p.given s ≡ some s1
        → ¬ HasServed r s s1
        → ServeThrows ((r, i) ∷ rs) (p ∷ ps) s
    after_hung :
        {r : Rule S E} {i : Bool} {rs : List (Rule S E × Bool)} {p : Polled E}
        {ps : List (Polled E)} {s s1 : S}
        → IsHung r i p
        → r.cancel s ≡ some s1
        → ServeThrows rs ps s1
        → ServeThrows ((r, i) ∷ rs) (p ∷ ps) s
    after_called :
        {r : Rule S E} {i : Bool} {rs : List (Rule S E × Bool)} {p : Polled E}
        {ps : List (Polled E)} {s s1 : S}
        → IsReady r i p
        → r.callback p.given s ≡ some s1
        → HasServed r s s1
        → ServeThrows rs ps s1
        → ServeThrows ((r, i) ∷ rs) (p ∷ ps) s
    after_idle :
        {r : Rule S E} {i : Bool} {rs : List (Rule S E × Bool)} {p : Polled E}
        {ps : List (Polled E)} {s : S}
        → ¬ IsReady r i p
        → ¬ IsHung r i p
        → ServeThrows rs ps s
        → ServeThrows ((r, i) ∷ rs) (p ∷ ps) s
