-- ===== src/Respond/Examples.antt =====
-- An object of seven bytes in parts of three, with the second part in the storage.
use nedomi.Prelude.{
  ℕ, ◌+◌, ◌-◌, ◌*◌, ◌≡◌, refl, true, false, none, some, List, [], ◌∷◌, ◌==◌, if◌then◌else◌, take,
  drop, arith, Bool-cases, inl, inr, subst,
}
use nedomi.Ranges.Strings.{Text, after_prefix, cut, trim_space, parse_uint}
use nedomi.Ranges.{get_response_range, parse_response_content_range, content_range}
use nedomi.Respond.{is_parsed, Stream, opened, not_exist, Server}
use nedomi.Respond.Pieces.{IsPiece}
use nedomi.Respond.Faithful.{IsFaithful}
use nedomi.Respond.Up.{IsUp, IsSmooth}

abbrev pub object : List ℕ
object = 10 ∷ 11 ∷ 12 ∷ 13 ∷ 14 ∷ 15 ∷ 16 ∷ []

abbrev pub stretch : ℕ → ℕ → Stream ℕ
stretch a n = record { content = take n (drop a object); fails = false; seek_fails = false }

-- `bytes 0-6/7`
abbrev pub whole_range : Text
whole_range = 98 ∷ 121 ∷ 116 ∷ 101 ∷ 115 ∷ 32 ∷ 48 ∷ 45 ∷ 54 ∷ 47 ∷ 55 ∷ []

abbrev pub server : Server ℕ ℕ
server = record {
  part_size = 3;
  object_size = 7;
  lookup = λ e i. (e, false);
  get_part = λ e i. (e, if i == 1 then opened (stretch (i * 3) 3) else not_exist);
  promote_object = λ e i. e + 1;
  get_available_parts = λ e. (e, some (1 ∷ []));
  next = λ e a b. (
    e,
    record {
      code = 206;
      content_range = whole_range;
      content_length = [];
      body = stretch a (b + 1 - a);
    },
  );
  send = λ e l. (e + 1, none);
  sort = λ l. l;
}

stretch-IsPiece : (a n : ℕ) → IsPiece object a n (stretch a n)
stretch-IsPiece a n = record { k = n; within = omega arith; content = refl; whole = λ e. refl }

stored_stretch : (i : ℕ) (s : Stream ℕ) → (server.get_part 0 i).1 ≡ opened s → stretch (i * 3) 3 ≡ s
stored_stretch i s = elim (Bool-cases (i == 1)) [
  | inl t ↦ rw t (λ p. cc p)
  | inr t ↦ rw t (λ p. absurd (cc p))
]

pub server-IsFaithful : IsFaithful server object
server-IsFaithful = record {
  sized = refl;
  bounded = omega arith;
  positive = omega arith;
  stored = λ e i s p.
      subst (IsPiece object (i * 3) 3) (stored_stretch i s p) (stretch-IsPiece (i * 3) 3);
  ranged = λ e a b le c. stretch-IsPiece a (b + 1 - a);
}

whole_range_lem : is_parsed (get_response_range 206 whole_range []) ≡ true
unfolding get_response_range parse_response_content_range content_range after_prefix cut trim_space
    parse_uint
whole_range_lem = refl

pub server-IsUp : IsUp server
server-IsUp = record {
  lists = λ e p. absurd (cc p);
  opens = λ e i. elim (Bool-cases (i == 1)) [
    | inl t ↦ rw t (λ p. absurd (cc p))
    | inr t ↦ rw t (λ p. absurd (cc p))
  ];
  stored = λ e i s p. subst IsSmooth (stored_stretch i s p) (record { reads = refl; seeks = refl });
  partial = λ e a b. refl;
  readable = λ e a b. whole_range_lem;
  received = λ e a b. record { reads = refl; seeks = refl };
  delivers = λ e l. refl;
}
