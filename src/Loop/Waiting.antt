-- ===== src/Loop/Waiting.antt =====
-- `wait_next_event` as a whole, when `poll` does not fail.
use nju_networking_lab.Base.{◌≡◌, ◌⊎◌, List, [], ◌∷◌, Bool, true, false}
use nju_networking_lab.Loop.{
  Rule, Polled, Poll, Result, interrupted, timed_out, polled, success, timeout, exit, rules_of,
}
use nju_networking_lab.Loop.Turn.{SetUp, SetUpThrows, Served, ServeThrows}

module _ {S E : Type 0} where
  abbrev pub SomeInterested : List (Rule S E × Bool) → Type 0
  SomeInterested [] = ⊥
  SomeInterested ((r, i) ∷ rs) = (i ≡ true) ⊎ SomeInterested rs

  abbrev pub NoneInterested : List (Rule S E × Bool) → Type 0
  NoneInterested [] = Unit
  NoneInterested ((r, i) ∷ rs) = (i ≡ false) × NoneInterested rs

  module _ (system_poll : List (Rule S E × Bool) → Poll E) (rules : List (Rule S E)) (s : S) where
    -- How a turn returns: nothing was of interest, a signal came, nobody was ready in time, or the
    -- rules were served.
    pub data Returns : Result → List (Rule S E) → S → Type 0 where
      nothing_to_poll :
          {rs : List (Rule S E × Bool)} {s1 : S}
          → SetUp rules s rs s1
          → NoneInterested rs
          → Returns exit (rules_of rs) s1
      signal_came :
          {rs : List (Rule S E × Bool)} {s1 : S}
          → SetUp rules s rs s1
          → SomeInterested rs
          → system_poll rs ≡ interrupted
          → Returns exit (rules_of rs) s1
      none_in_time :
          {rs : List (Rule S E × Bool)} {s1 : S}
          → SetUp rules s rs s1
          → SomeInterested rs
          → system_poll rs ≡ timed_out
          → Returns timeout (rules_of rs) s1
      rules_served :
          {rs : List (Rule S E × Bool)} {ps : List (Polled E)} {out : List (Rule S E)} {s1 s2 : S}
          → SetUp rules s rs s1
          → SomeInterested rs
          → system_poll rs ≡ polled ps
          → Served rs ps s1 out s2
          → Returns success out s2

    -- How it throws.
    pub data Throws : Type 0 where
      setting_up : SetUpThrows rules s → Throws
      serving :
          {rs : List (Rule S E × Bool)} {ps : List (Polled E)} {s1 : S}
          → SetUp rules s rs s1
          → SomeInterested rs
          → system_poll rs ≡ polled ps
          → ServeThrows rs ps s1
          → Throws
