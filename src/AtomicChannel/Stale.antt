-- ===== src/AtomicChannel/Stale.antt =====
-- Two senders on one channel: an element can be counted before an earlier slot is filled.
use native.Mathlib.Nat.{mod-eq_of_lt}
use so_1920v_li41n.Prelude.{
  ℕ, ◌+◌, ◌-◌, ◌%◌, ◌≤◌, ◌<◌, ◌≡◌, refl, Option, none, some, List, [], ◌∷◌, arith, update,
}
use so_1920v_li41n.AtomicChannel.{
  Shared, Pc, idle, put_wait, put_copy, get_wait, got, new_channel, step,
}

-- Two senders and a receiver.
pub record Three : Type 0 where
  pub shared : Shared
  pub a : Pc
  pub b : Pc
  pub r : Pc

pub data Who : Type 0 where
  sender_a sender_b receiver : Who

unfoldable pub turn : Who → Three → Option Three
turn sender_a t = elim (step t.shared t.a) [
  | none ↦ none
  | some (s, p) ↦ some (record t { shared = s; a = p })
]
turn sender_b t = elim (step t.shared t.b) [
  | none ↦ none
  | some (s, p) ↦ some (record t { shared = s; b = p })
]
turn receiver t = elim (step t.shared t.r) [
  | none ↦ none
  | some (s, p) ↦ some (record t { shared = s; r = p })
]

unfoldable pub run : List Who → Three → Option Three
run [] t = some t
run (w ∷ ws) t = elim (turn w t) [ none ↦ none | some t' ↦ run ws t' ]

-- The first sender claims slot 0 and is interrupted; the second fills slot 1 and counts it; the
-- receiver takes the count for slot 0.
abbrev pub overtaking : List Who
overtaking =
    sender_a ∷ sender_a ∷ sender_b ∷ sender_b ∷ sender_b ∷ sender_b ∷ receiver ∷ receiver ∷ receiver
    ∷ receiver ∷ []

mod_small : (c n : ℕ) → n < c → n % c ≡ n
mod_small c n h = mod-eq_of_lt h

-- On every new channel of two slots or more, and for any elements `x` and `y` sent, the receiver gets
-- what the new memory held at slot 0, though neither sender has put it there.
pub get-stale :
    (capacity x y : ℕ) (buffer : ℕ → ℕ)
    → 2 ≤ capacity
    → (t : Three) × (run overtaking (record {
      shared = new_channel capacity buffer;
      a = put_wait x;
      b = put_wait y;
      r = get_wait;
    })
        ≡ some t)
      × (t.r ≡ got (buffer 0))
      × (t.a ≡ put_copy x 0)
unfolding run turn step new_channel
get-stale c x y buffer h = (
  record {
    shared = record {
      has_items = 0;
      has_space = c - 1 - 1 + 1;
      capacity = c;
      iget = 1;
      iput = 2;
      buffer = update buffer (1 % c) y;
    };
    a = put_copy x 0;
    b = idle;
    r = got (buffer 0);
  },
  ground (arith, mod_small c 0 (omega arith), mod_small c 1 (omega arith)),
  refl,
  refl,
)
