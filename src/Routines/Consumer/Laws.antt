-- ===== src/Routines/Consumer/Laws.antt =====
-- Every item is handed over once, in the order in which it was taken.
use mcmp.Common.{
  if◌then◌else◌, Bool-cases, ◌∙◌, ℕ, ◌≡◌, refl, ap, inl, inr, ◌⊎◌, Bool, true, false, List, [], ◌∷◌,
  ◌++◌,
}
use mcmp.Routines.SignalRoutine.{Waited, signalled, timed_out, failed}
use mcmp.Routines.Consumer.{
  Turn, after_wait, Ret, taked, nothing, Round, Left, waiting, woken_up, left, inner, Event, takes,
  hands_over, handed, finish, consumer_loop, Poll, pool_loop,
}

abbrev pub taken : List Event → List ℕ
taken [] = []
taken (takes item ∷ events) = item ∷ taken events
taken (hands_over item ∷ events) = taken events

abbrev pub handed_over : List Event → List ℕ
handed_over [] = []
handed_over (takes item ∷ events) = handed_over events
handed_over (hands_over item ∷ events) = item ∷ handed_over events

-- All items taken were handed over, or all but the last.
abbrev pub LosesAtMostLast : List Event → Type 0
LosesAtMostLast events =
    (taken events ≡ handed_over events)
    ⊎ ((item : ℕ) × (taken events ≡ handed_over events ++ (item ∷ [])))

longer :
    (item : ℕ) (events : List Event)
    → LosesAtMostLast events
    → LosesAtMostLast (takes item ∷ hands_over item ∷ events)
longer item events (inl e) = inl (ap (λ l. item ∷ l) e)
longer item events (inr (lost, e)) = inr (lost, ap (λ l. item ∷ l) e)

handed-LosesAtMostLast :
    (ret : Ret) (rest : List Event) → LosesAtMostLast rest → LosesAtMostLast (handed ret rest)
handed-LosesAtMostLast (taked item) rest v = longer item rest v
handed-LosesAtMostLast nothing rest v = v

finish-LosesAtMostLast :
    (l : Left) (running : Bool) (second : Ret) (rest : List Event)
    → LosesAtMostLast rest
    → LosesAtMostLast (finish l running second rest)
finish-LosesAtMostLast waiting running second rest v = inl refl
finish-LosesAtMostLast woken_up true second rest v = handed-LosesAtMostLast second rest v
finish-LosesAtMostLast woken_up false second rest v = inl refl
finish-LosesAtMostLast (left ret) true second rest v = handed-LosesAtMostLast ret rest v
finish-LosesAtMostLast (left (taked item)) false second rest v = inr (item, refl)
finish-LosesAtMostLast (left nothing) false second rest v = inl refl

-- The item of a call of `key`, if it gives one.
abbrev items : Ret → List ℕ
items (taked item) = item ∷ []
items nothing = []

-- What `key` gives in a round from a wait on, where it gives `later` if the waits go on; and whether
-- they end, where `later` is whether they do from the next one on.
abbrev offers_woken : Waited → (again running : Bool) → (second : Ret) → (later : List ℕ) → List ℕ
offers_woken signalled again running second later = if running then items second else []
offers_woken timed_out again running second later = if again then later else []
offers_woken failed again running second later = []

abbrev ends_woken : Waited → (again later : Bool) → Bool
ends_woken signalled again later = true
ends_woken timed_out again later = if again then later else true
ends_woken failed again later = true

-- What `key` gives in a round: its first item, or what it gives after a signal if `running` is set then.
abbrev pub offers : (running : Bool) → (first : Ret) → List Turn → (second : Ret) → List ℕ
offers running (taked item) turns second = item ∷ []
offers running nothing [] second = []
offers running nothing (turn ∷ turns) second =
    offers_woken turn.waited turn.running running second (offers running turn.key turns second)

-- Whether the waits of a round end.
abbrev pub ends : (first : Ret) → List Turn → Bool
ends (taked item) turns = true
ends nothing [] = false
ends nothing (turn ∷ turns) = ends_woken turn.waited turn.running (ends turn.key turns)

-- The items that `key` gives in all rounds; the last one is that which waits or finds `running` clear.
abbrev pub offered : Bool → List Round → List ℕ
offered false rounds = []
offered true [] = []
offered true (round ∷ rounds) =
    let later = offered round.stays rounds in
    let on = if round.running then ends round.first round.turns else false in
    offers round.running round.first round.turns round.second ++ (if on then later else [])

-- Those of the rounds that find `running` set.
abbrev pub kept : Bool → List Round → List ℕ
kept false rounds = []
kept true [] = []
kept true (round ∷ rounds) =
    let later = kept round.stays rounds in
    let on = ends round.first round.turns in
    if round.running
    then offers true round.first round.turns round.second ++ (if on then later else [])
    else []

-- What the inner loop comes to, by what its round offers and whether its waits end.
abbrev Fits : (running : Bool) → (second : Ret) → List ℕ → Bool → Left → Type 0
Fits running second given over waiting = (given ≡ []) × (over ≡ false)
Fits running second given over woken_up =
    (given ≡ (if running then items second else [])) × (over ≡ true)
Fits running second given over (left ret) = (given ≡ items ret) × (over ≡ true)

after_wait-Fits :
    (waited : Waited) (again running : Bool) (second : Ret) (given : List ℕ) (over : Bool)
    (l : Left)
    → Fits running second given over l
    → Fits running second
        (offers_woken waited again running second given)
        (ends_woken waited again over)
        (after_wait waited again l)
after_wait-Fits signalled again running second given over l v = (refl, refl)
after_wait-Fits timed_out true running second given over l v = v
after_wait-Fits timed_out false running second given over l v = (refl, refl)
after_wait-Fits failed again running second given over l v = (refl, refl)

inner-Fits :
    (running : Bool) (first : Ret) (turns : List Turn) (second : Ret)
    → Fits running second (offers running first turns second) (ends first turns) (inner first turns)
unfolding inner
inner-Fits running (taked item) turns second = (refl, refl)
inner-Fits running nothing [] second = (refl, refl)
inner-Fits running nothing (turn ∷ turns) second =
    after_wait-Fits turn.waited turn.running running second _ _ _
      (inner-Fits running turn.key turns second)

taken-finish :
    (l : Left) (running : Bool) (second : Ret) (rest : List Event) (given : List ℕ) (over : Bool)
    → Fits running second given over l
    → taken (finish l running second rest)
      ≡ given ++ (if (if running then over else false) then taken rest else [])
taken-finish waiting true second rest given over v = rw (v.0, v.1) refl
taken-finish waiting false second rest given over v = rw v.0 refl
taken-finish woken_up true (taked item) rest given over v = rw (v.0, v.1) refl
taken-finish woken_up true nothing rest given over v = rw (v.0, v.1) refl
taken-finish woken_up false second rest given over v = rw v.0 refl
taken-finish (left (taked item)) true second rest given over v = rw (v.0, v.1) refl
taken-finish (left nothing) true second rest given over v = rw (v.0, v.1) refl
taken-finish (left (taked item)) false second rest given over v = rw v.0 refl
taken-finish (left nothing) false second rest given over v = rw v.0 refl

handed_over-finish :
    (l : Left) (second : Ret) (rest : List Event) (given : List ℕ) (over : Bool)
    → Fits true second given over l
    → handed_over (finish l true second rest) ≡ given ++ (if over then handed_over rest else [])
handed_over-finish waiting second rest given over v = rw (v.0, v.1) refl
handed_over-finish woken_up (taked item) rest given over v = rw (v.0, v.1) refl
handed_over-finish woken_up nothing rest given over v = rw (v.0, v.1) refl
handed_over-finish (left (taked item)) second rest given over v = rw (v.0, v.1) refl
handed_over-finish (left nothing) second rest given over v = rw (v.0, v.1) refl

handed_over-stopped :
    (l : Left) (second : Ret) (rest : List Event) → handed_over (finish l false second rest) ≡ []
handed_over-stopped waiting second rest = refl
handed_over-stopped woken_up second rest = refl
handed_over-stopped (left (taked item)) second rest = refl
handed_over-stopped (left nothing) second rest = refl

taken-consumer_loop :
    (running : Bool) (rounds : List Round)
    → taken (consumer_loop running rounds) ≡ offered running rounds
unfolding consumer_loop
taken-consumer_loop false rounds = refl
taken-consumer_loop true [] = refl
taken-consumer_loop true (round ∷ rounds) =
    taken-finish (inner round.first round.turns) round.running round.second _ _ _
      (inner-Fits round.running round.first round.turns round.second)
    ∙ rw (taken-consumer_loop round.stays rounds) refl

handed_over-consumer_loop :
    (running : Bool) (rounds : List Round)
    → handed_over (consumer_loop running rounds) ≡ kept running rounds
unfolding consumer_loop
handed_over-consumer_loop false rounds = refl
handed_over-consumer_loop true [] = refl
handed_over-consumer_loop true (round ∷ rounds) = elim (Bool-cases round.running) [
  | inl on ↦ rw on (
      handed_over-finish (inner round.first round.turns) round.second _ _ _
        (inner-Fits true round.first round.turns round.second)
      ∙ rw (handed_over-consumer_loop round.stays rounds) refl)
  | inr off ↦ rw off (handed_over-stopped (inner round.first round.turns) round.second _)
]

consumer_loop-LosesAtMostLast :
    (running : Bool) (rounds : List Round) → LosesAtMostLast (consumer_loop running rounds)
unfolding consumer_loop
consumer_loop-LosesAtMostLast false rounds = inl refl
consumer_loop-LosesAtMostLast true [] = inl refl
consumer_loop-LosesAtMostLast true (round ∷ rounds) =
    finish-LosesAtMostLast (inner round.first round.turns) round.running round.second _
      (consumer_loop-LosesAtMostLast round.stays rounds)

-- The consumer with a lock takes, in each round up to the first one that waits for ever or finds
-- `running` clear, the first item that `key` gives before or after a wait, or what it gives after a
-- signal. It hands over, once and in order, exactly the items of the rounds that find `running` set
-- after their waits: so all that it takes but the last, if the last round finds it clear.
pub consumer_loop_lem :
    (running : Bool) (rounds : List Round)
    → (taken (consumer_loop running rounds) ≡ offered running rounds)
      × (handed_over (consumer_loop running rounds) ≡ kept running rounds)
      × LosesAtMostLast (consumer_loop running rounds)
consumer_loop_lem running rounds = (
  taken-consumer_loop running rounds,
  handed_over-consumer_loop running rounds,
  consumer_loop-LosesAtMostLast running rounds,
)

-- The consumer of a pool hands over every item that it takes, once and in order, whenever `running` is
-- cleared.
pool_loop_lem :
    (running : Bool) (polls : List Poll)
    → taken (pool_loop running polls) ≡ handed_over (pool_loop running polls)
unfolding pool_loop
pool_loop_lem false polls = refl
pool_loop_lem true [] = refl
pool_loop_lem true (poll ∷ polls) =
    by_key poll.key (pool_loop_lem poll.stays polls) (pool_loop_lem true polls)
  where
    by_key :
        (key : Ret)
        → taken (pool_loop poll.stays polls) ≡ handed_over (pool_loop poll.stays polls)
        → taken (pool_loop true polls) ≡ handed_over (pool_loop true polls)
        → (let next : List Event = elim key [
          | taked item ↦ takes item ∷ hands_over item ∷ pool_loop poll.stays polls
          | _ ↦ pool_loop true polls
        ] in
            taken next ≡ handed_over next)
    by_key (taked item) e f = ap (λ l. item ∷ l) e
    by_key nothing e f = f
