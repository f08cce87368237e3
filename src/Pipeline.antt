-- ===== src/Pipeline.antt =====
-- uthreads/tests/queue.c and pgrep.c: a bounded queue on two semaphores, and three user threads that
-- print the lines of a file that contain a word. A semaphore is its units: `sem_wait` is a step that is
-- possible when there is one. A step takes a thread from one such point to the next, or part of the
-- way; any thread that can go on may be next, which allows every order of the scheduler and more.
-- A line is a number, `strstr` tells which lines contain the word, and `none` is the null pointer.
mod Examples
pub mod Ending
pub mod Finish
pub mod Progress
pub mod Queues
pub mod Runs
pub mod Steps
pub mod Stream
use so_1920v_li41n.Prelude.{
  ℕ, ◌+◌, ◌-◌, Bool, Option, none, some, List, [], ◌∷◌, ◌++◌, ◌==◌, ltb, if◌then◌else◌,
}

-- QUEUE: the items of its list, the units of its semaphores, and their limit.
pub record Queue : Type 0 where
  pub list : List (Option ℕ)
  pub has_items : ℕ
  pub has_space : ℕ
  pub size : ℕ

unfoldable pub queue_init : (size : ℕ) → Queue
queue_init size = record { list = []; has_items = 0; has_space = size; size = size }

-- `sem_post(sem, 1)` on a semaphore with that limit
abbrev pub post : (limit units : ℕ) → ℕ
post limit units = if ltb limit (units + 1) then limit else units + 1

-- `queue_put` up to its `sem_wait`, and the rest of it.
unfoldable pub queue_put_wait : Queue → Option Queue
queue_put_wait q =
    if q.has_space == 0 then none else some (record q { has_space = q.has_space - 1 })

unfoldable pub queue_put_rest : Option ℕ → Queue → Queue
queue_put_rest item q = record q { list = q.list ++ item ∷ []; has_items = post q.size q.has_items }

-- `queue_get` up to its `sem_wait`, and the rest of it; `none` takes a node from an empty list.
unfoldable pub queue_get_wait : Queue → Option Queue
queue_get_wait q =
    if q.has_items == 0 then none else some (record q { has_items = q.has_items - 1 })

unfoldable pub queue_get_rest : Queue → Option (Option ℕ × Queue)
queue_get_rest q = elim q.list [
  | [] ↦ none
  | val ∷ rest ↦ some (val, record q { list = rest; has_space = post q.size q.has_space })
]

-- Where each thread stands: before `fgets`, in a `queue_put`, at its end; before and in a `queue_get`,
-- behind it with the line. `rest` are the lines that the reader has still to read.
pub data Reader : Type 0 where
  reading : (rest : List ℕ) → Reader
  putting : (item : Option ℕ) (rest : List ℕ) → Reader
  inserting : (item : Option ℕ) (rest : List ℕ) → Reader
  closed : Reader

pub data Filter : Type 0 where
  waiting : Filter
  removing : Filter
  testing : (line : ℕ) → Filter
  passing : (item : Option ℕ) → Filter
  appending : (item : Option ℕ) → Filter
  ended : Filter

pub data Presenter : Type 0 where
  expecting : Presenter
  fetching : Presenter
  printing : (line : ℕ) → Presenter
  finished : Presenter

-- `printed` are the lines that the presenter has printed, and `frees` counts the lines that it freed.
pub record Pipe : Type 0 where
  pub qreader : Queue
  pub qfilter : Queue
  pub reader : Reader
  pub filter : Filter
  pub presenter : Presenter
  pub printed : List ℕ
  pub count : ℕ
  pub frees : ℕ

-- `file` is what `fopen` and the calls of `fgets` give: the lines, if the file can be opened.
unfoldable pub reader_open : (file : Option (List ℕ)) → Reader
reader_open none = putting none []
reader_open (some lines) = reading lines

unfoldable pub start : (file : Option (List ℕ)) → Pipe
start file = record {
  qreader = queue_init 1;
  qfilter = queue_init 1;
  reader = reader_open file;
  filter = waiting;
  presenter = expecting;
  printed = [];
  count = 0;
  frees = 0;
}

-- The reader ends behind its null item.
abbrev pub after_put : Option ℕ → List ℕ → Reader
after_put none rest = closed
after_put (some line) rest = reading rest

unfoldable pub reader_step : Pipe → Option Pipe
reader_step s = elim s.reader [
  | reading [] ↦ some (record s { reader = putting none [] })
  | reading (line ∷ rest) ↦ some (record s { reader = putting (some line) rest })
  | putting item rest ↦ elim (queue_put_wait s.qreader) [
    | none ↦ none
    | some q ↦ some (record s { qreader = q; reader = inserting item rest })
  ]
  | inserting item rest ↦
      some (record s { qreader = queue_put_rest item s.qreader; reader = after_put item rest })
  | closed ↦ none
]

abbrev pub after_get : Option ℕ → Filter
after_get none = passing none
after_get (some line) = testing line

abbrev pub after_pass : Option ℕ → Filter
after_pass none = ended
after_pass (some line) = waiting

unfoldable pub filter_step : (strstr : ℕ → Bool) → Pipe → Option Pipe
filter_step strstr s = elim s.filter [
  | waiting ↦ elim (queue_get_wait s.qreader) [
    | none ↦ none
    | some q ↦ some (record s { qreader = q; filter = removing })
  ]
  | removing ↦ elim (queue_get_rest s.qreader) [
    | none ↦ none
    | some (item, q) ↦ some (record s { qreader = q; filter = after_get item })
  ]
  | testing line ↦ some (record s { filter = if strstr line then passing (some line) else waiting })
  | passing item ↦ elim (queue_put_wait s.qfilter) [
    | none ↦ none
    | some q ↦ some (record s { qfilter = q; filter = appending item })
  ]
  | appending item ↦
      some (record s { qfilter = queue_put_rest item s.qfilter; filter = after_pass item })
  | ended ↦ none
]

abbrev pub after_fetch : Option ℕ → Presenter
after_fetch none = finished
after_fetch (some line) = printing line

unfoldable pub presenter_step : Pipe → Option Pipe
presenter_step s = elim s.presenter [
  | expecting ↦ elim (queue_get_wait s.qfilter) [
    | none ↦ none
    | some q ↦ some (record s { qfilter = q; presenter = fetching })
  ]
  | fetching ↦ elim (queue_get_rest s.qfilter) [
    | none ↦ none
    | some (item, q) ↦ some (record s { qfilter = q; presenter = after_fetch item })
  ]
  | printing line ↦ some (record s {
    presenter = expecting;
    printed = s.printed ++ line ∷ [];
    frees = s.frees + 1;
    count = s.count + 1;
  })
  | finished ↦ none
]

pub data Turn : Type 0 where
  reads : Turn
  filters : Turn
  presents : Turn

unfoldable pub step : (strstr : ℕ → Bool) → Turn → Pipe → Option Pipe
step strstr reads s = reader_step s
step strstr filters s = filter_step strstr s
step strstr presents s = presenter_step s

-- The steps of a schedule, if each is possible in its turn.
unfoldable pub run : (strstr : ℕ → Bool) → List Turn → Pipe → Option Pipe
run strstr [] s = some s
run strstr (t ∷ ts) s = elim (step strstr t s) [ none ↦ none | some s' ↦ run strstr ts s' ]
