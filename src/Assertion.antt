-- ===== src/Assertion.antt =====
-- The macros of tanu-core/src/assertion.rs, in the body of a test of a project. What `Display`, `Debug`
-- and the comparisons of pretty_assertions print is an argument, and so is `==`. The channel holds
-- events, and a `Report` is the error that a test returns.
use tanu.Prelude.{
  Bool, true, false, not, List, [], ◌∷◌, ◌++◌, Option, none, some, Text, codes, Result, ok, err,
  if◌then◌else◌, ◌≡◌, refl,
}
use tanu.Runner.{Check, success, error, TestInfo, check, Event, event_of}
use tanu.Runner.Startup.{publish}

pub data Error : Type 0 where
  str_eq : Text → Error
  eq : Text → Error
  ne : Text → Error

-- `eyre::Report`
pub data Report : Type 0 where
  message : Text → Report
  assertion : Error → Report

-- the text of a report
abbrev pub report_text : Report → Text
report_text (message t) = t
report_text (assertion (str_eq t)) = t
report_text (assertion (eq t)) = t
report_text (assertion (ne t)) = t

-- the arguments after the colon, if there are any
abbrev with_args : Text → Option Text → Text
with_args colon none = []
with_args colon (some args) = colon ++ args

-- `"{}: `(left == right)`{}{}\n\n{}\n"`; 10 is a line feed
abbrev eq_message : Text → Option Text → Text → Text
eq_message head args diff =
    head
    ++ codes ": `(left == right)`"
    ++ with_args (codes ": ") args
    ++ (10 ∷ 10 ∷ [])
    ++ diff
    ++ (10 ∷ [])

-- `"{}: `(left != right)`{}{}\n\nBoth sides:\n{:#?}\n\n"`
abbrev ne_message : Text → Option Text → Text → Text
ne_message head args left =
    head
    ++ codes ": `(left != right)`"
    ++ with_args (codes ": ") args
    ++ (10 ∷ 10 ∷ codes "Both sides:")
    ++ (10 ∷ left)
    ++ (10 ∷ 10 ∷ [])

-- what a macro gives, and the channel after it
abbrev pub Outcome : Type 0 → Type 0 → Type 0
Outcome H G = Result Report (Unit {0}) × Option (List (Event H G))

module _ {H G : Type 0} (project : Text) (info : TestInfo) where
  delivered :
      Result Text (Unit {0}) → Result Report (Unit {0}) → Option (List (Event H G)) → Outcome H G
  delivered (err e) result channel = (err (message e), channel)
  delivered (ok u) result channel = (result, channel)

  -- `publish(EventBody::Check(Box::new(check)))?`, and then the result
  publish_check : Check → Result Report (Unit {0}) → Option (List (Event H G)) → Outcome H G
  unfolding publish delivered event_of
  publish_check c result channel =
      let (published, channel') = publish (event_of project info (check c)) channel in
      delivered published result channel'

  -- `check!`
  unfoldable pub check_that : Text → Bool → Option Text → Option (List (Event H G)) → Outcome H G
  unfolding publish_check
  check_that expr cond args channel =
      if not cond
      then publish_check (error (codes "check failed: " ++ expr ++ with_args (codes ":") args))
          (err (message (codes "check failed: " ++ expr ++ with_args (codes ":") args))) channel
      else publish_check (success (codes "check succeeded: " ++ expr ++ with_args (codes ":") args))
          (ok tt) channel

  module _ {A : Type 0} (same : A → A → Bool) where
    -- a comparison that wants equality, with its error
    want_equal :
        (Text → Error)
        → (A → A → Text)
        → A
        → A
        → Option Text
        → Option (List (Event H G))
        → Outcome H G
    unfolding publish_check
    want_equal fails diff left right args channel =
        if not (same left right)
        then publish_check (error (eq_message (codes "check failed") args (diff left right)))
            (err (assertion (fails (eq_message (codes "check failed") args (diff left right)))))
            channel
        else publish_check (success (eq_message (codes "check succeeded") args (diff left right)))
            (ok tt) channel

    unfoldable pub check_str_eq :
        (A → A → Text) → A → A → Option Text → Option (List (Event H G)) → Outcome H G
    unfolding want_equal
    check_str_eq str_comparison = want_equal str_eq str_comparison

    unfoldable pub check_eq :
        (A → A → Text) → A → A → Option Text → Option (List (Event H G)) → Outcome H G
    unfolding want_equal
    check_eq comparison = want_equal eq comparison

    unfoldable pub check_ne :
        (A → Text) → A → A → Option Text → Option (List (Event H G)) → Outcome H G
    unfolding publish_check
    check_ne debug left right args channel =
        if same left right
        then publish_check (error (ne_message (codes "check failed") args (debug left)))
            (err (assertion (ne (ne_message (codes "check failed") args (debug left))))) channel
        else publish_check (success (ne_message (codes "check succeeded") args (debug left)))
            (ok tt) channel

  -- What a macro does whose condition is `holds`: on an open channel it adds the event of one check with
  -- that result, and returns an error with the text of that check if it does not hold; on a closed one it
  -- fails.
  pub data Told (holds : Bool) : Option (List (Event H G)) → Outcome H G → Type 0 where
    passed :
        (events : List (Event H G)) (c : Check)
        → holds ≡ true
        → c.result ≡ true
        → Told holds (some events) (ok tt, some (events ++ (event_of project info (check c) ∷ [])))
    failed :
        (events : List (Event H G)) (c : Check) (r : Report)
        → holds ≡ false
        → c.result ≡ false
        → report_text r ≡ c.expr
        → Told holds (some events) (err r, some (events ++ (event_of project info (check c) ∷ [])))
    closed : (r : Report) → Told holds none (err r, none)

  passed-Told :
      (c : Check) (channel : Option (List (Event H G)))
      → c.result ≡ true
      → Told true channel (publish_check c (ok tt) channel)
  unfolding publish_check
  passed-Told c none h = closed (message (codes "runner channel has been already closed"))
  passed-Told c (some events) h = passed events c refl h

  failed-Told :
      (c : Check) (r : Report) (channel : Option (List (Event H G)))
      → c.result ≡ false
      → report_text r ≡ c.expr
      → Told false channel (publish_check c (err r) channel)
  unfolding publish_check
  failed-Told c r none h k = closed (message (codes "runner channel has been already closed"))
  failed-Told c r (some events) h k = failed events c r refl h k

  -- `check!` publishes one check with the truth of its condition, and fails if that is false.
  pub check_that-Told :
      (expr : Text) (cond : Bool) (args : Option Text) (channel : Option (List (Event H G)))
      → Told cond channel (check_that expr cond args channel)
  unfolding check_that
  check_that-Told expr true args channel = passed-Told _ channel refl
  check_that-Told expr false args channel = failed-Told _ (message _) channel refl refl

  module _ {A : Type 0} (same : A → A → Bool) (left right : A) (args : Option Text)
      (channel : Option (List (Event H G))) where
    equal-Told :
        (fails : Text → Error)
        → ((t : Text) → report_text (assertion (fails t)) ≡ t)
        → (diff : A → A → Text) (b : Bool)
        → Told b channel (
            if not b
            then publish_check
                (error (eq_message (codes "check failed") args (diff left right)))
                (err (assertion (fails (eq_message (codes "check failed") args (diff left right)))))
                channel
            else publish_check
                (success (eq_message (codes "check succeeded") args (diff left right)))
                (ok tt)
                channel)
    equal-Told fails k diff true = passed-Told _ channel refl
    equal-Told fails k diff false = failed-Told _ (assertion (fails _)) channel refl (k _)

    differ-Told :
        (debug : A → Text) (b : Bool)
        → Told (not b) channel (
            if b
            then publish_check
                (error (ne_message (codes "check failed") args (debug left)))
                (err (assertion (ne (ne_message (codes "check failed") args (debug left)))))
                channel
            else publish_check
                (success (ne_message (codes "check succeeded") args (debug left)))
                (ok tt)
                channel)
    differ-Told debug true = failed-Told _ (assertion (ne _)) channel refl refl
    differ-Told debug false = passed-Told _ channel refl

    -- Each of the comparing macros publishes one check on an open channel, whose result is whether the
    -- two sides are equal, or for `check_ne!` whether they are not, and returns an error with the text of
    -- that check exactly if it is false; on a closed channel each fails.
    pub comparisons-Told :
        (comparison : A → A → Text) (debug : A → Text)
        → Told (same left right) channel (check_str_eq same comparison left right args channel)
          × Told (same left right) channel (check_eq same comparison left right args channel)
          × Told (not (same left right)) channel (check_ne same debug left right args channel)
    unfolding check_str_eq check_eq check_ne want_equal
    comparisons-Told comparison debug = (
      equal-Told str_eq (λ t. refl) comparison (same left right),
      equal-Told eq (λ t. refl) comparison (same left right),
      differ-Told debug (same left right),
    )
