-- ===== src/Pipeline/Stream.antt =====
-- What flows through the pipeline: no thread loses, doubles or reorders a line.
use so_1920v_li41n.Prelude.{
  ℕ, ◌+◌, ◌≡◌, Bool, true, false, Option, none, some, List, [], ◌∷◌, ◌++◌, if◌then◌else◌, length,
}
use so_1920v_li41n.Pipeline.{
  Queue, Reader, reading, putting, inserting, closed, Filter, waiting, removing, testing, passing,
  appending, ended, Presenter, expecting, fetching, printing, finished, Pipe,
}

-- The items that the reader has still to put, the null item last.
abbrev pub lines_out : List ℕ → List (Option ℕ)
lines_out [] = none ∷ []
lines_out (x ∷ xs) = some x ∷ lines_out xs

abbrev pub put_out : Option ℕ → List ℕ → List (Option ℕ)
put_out none rest = none ∷ []
put_out (some x) rest = some x ∷ lines_out rest

abbrev pub reader_out : Reader → List (Option ℕ)
reader_out (reading rest) = lines_out rest
reader_out (putting item rest) = put_out item rest
reader_out (inserting item rest) = put_out item rest
reader_out closed = []

abbrev pub shown : List (Option ℕ) → List ℕ
shown [] = []
shown (none ∷ xs) = []
shown (some x ∷ xs) = x ∷ shown xs

abbrev pub has_null : List (Option ℕ) → Bool
has_null [] = false
has_null (none ∷ xs) = true
has_null (some x ∷ xs) = has_null xs

abbrev pub presenter_out : Presenter → List (Option ℕ) → List ℕ
presenter_out expecting xs = shown xs
presenter_out fetching xs = shown xs
presenter_out (printing x) xs = x ∷ shown xs
presenter_out finished xs = []

-- The null item is still to come, if the presenter has not finished.
abbrev pub awaits : Presenter → List (Option ℕ) → Bool
awaits finished xs = true
awaits _ xs = has_null xs

-- The units that threads have taken from the semaphores and not used yet.
abbrev pub puts : Reader → ℕ
puts (inserting item rest) = 1
puts _ = 0

abbrev pub gets : Filter → ℕ
gets removing = 1
gets _ = 0

abbrev pub appends : Filter → ℕ
appends (appending item) = 1
appends _ = 0

abbrev pub fetches : Presenter → ℕ
fetches fetching = 1
fetches _ = 0

-- The units of the semaphores are the items and the free places of the queue, but for those that a
-- thread has taken and not used yet.
pub record Counted (q : Queue) (taken_space taken_items : ℕ) : Type 0 where
  pub items : length q.list ≡ q.has_items + taken_items
  pub space : q.has_space + taken_space + length q.list ≡ q.size

module _ (strstr : ℕ → Bool) where
  abbrev pub through : List (Option ℕ) → List (Option ℕ)
  through [] = []
  through (none ∷ xs) = none ∷ []
  through (some x ∷ xs) = if strstr x then some x ∷ through xs else through xs

  abbrev pub pass_out : Option ℕ → List (Option ℕ) → List (Option ℕ)
  pass_out none xs = none ∷ []
  pass_out (some x) xs = some x ∷ through xs

  abbrev pub filter_out : Filter → List (Option ℕ) → List (Option ℕ)
  filter_out waiting xs = through xs
  filter_out removing xs = through xs
  filter_out (testing x) xs = through (some x ∷ xs)
  filter_out (passing item) xs = pass_out item xs
  filter_out (appending item) xs = pass_out item xs
  filter_out ended xs = []

  -- What is to pass the filter, and what is to reach the presenter.
  abbrev pub input : Pipe → List (Option ℕ)
  input s = s.qreader.list ++ reader_out s.reader

  abbrev pub output : Pipe → List (Option ℕ)
  output s = s.qfilter.list ++ filter_out s.filter (input s)

  -- `goal` is what the presenter will have printed.
  pub record Inv (goal : List ℕ) (s : Pipe) : Type 0 where
    pub total : s.printed ++ presenter_out s.presenter (output s) ≡ goal
    pub alive : awaits s.presenter (output s) ≡ true
    pub reader_queue : Counted s.qreader (puts s.reader) (gets s.filter)
    pub filter_queue : Counted s.qfilter (appends s.filter) (fetches s.presenter)
    pub freed : s.frees ≡ length s.printed
    pub counted : s.count ≡ length s.printed
