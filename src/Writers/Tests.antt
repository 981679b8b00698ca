-- ===== src/Writers/Tests.antt =====
-- Writers that count bytes and take at most as many at once as a limit.
use nedomi.Prelude.{ℕ, ◌≡◌, ◌⊎◌, min, true, none, some, List, [], ◌∷◌, ◌++◌, length}
use nedomi.Writers.{WriteCloser, Fields, multi_write, new_flexible_response_writer}
use nedomi.Writers.Tee.{written, AllTake, multi_write-AllTake}
use nedomi.Writers.Hook.{
  ResponseCall, header, body, respond_all, after_hook, written_body, respond_all-new,
}

-- A writer is its limit.
abbrev limited : WriteCloser ℕ ℕ ℕ
limited = record {
  write = λ w p. (w, (min w (length p), none));
  close = λ w. (w, none);
  short_write = 99;
}

abbrev three : List ℕ
three = 1 ∷ 2 ∷ 3 ∷ []

multi_write-AllTake_example :
    ((multi_write limited (5 ∷ 2 ∷ 4 ∷ []) three
        ≡ (written limited three (5 ∷ 2 ∷ 4 ∷ []), (length three, none)))
      × AllTake limited three (5 ∷ 2 ∷ 4 ∷ []))
    ⊎ ((before : List ℕ) × (w : ℕ) × (after : List ℕ) × (err : ℕ) × (5 ∷ 2 ∷ 4 ∷ []
          ≡ before ++ w ∷ after)
        × AllTake limited three before
        × (multi_write limited (5 ∷ 2 ∷ 4 ∷ []) three ≡ (
          written limited three before ++ (limited.write w three).0 ∷ after,
          ((limited.write w three).1.0, some err),
        )))
multi_write-AllTake_example = multi_write-AllTake limited three (5 ∷ 2 ∷ 4 ∷ [])

-- A hook that keeps the codes that it sees, and writes to a writer of limit 5.
abbrev hook : List ℕ → Fields ℕ → List ℕ × Fields ℕ
hook e f = (f.code ∷ e, record { code = f.code; body_writer = some 5 })

abbrev calls : List (ResponseCall ℕ)
calls = body three ∷ header 500 ∷ []

respond_all-new_example :
    respond_all limited hook (new_flexible_response_writer limited hook []) (header 404 ∷ calls)
    ≡ record {
      env = (after_hook limited hook [] (header 404)).0;
      fields = record {
        code = (after_hook limited hook [] (header 404)).1.code;
        body_writer =
            written_body limited hook
              (after_hook limited hook [] (header 404)).1.body_writer
              (header 404 ∷ calls);
      };
      wrote_header = true;
    }
respond_all-new_example = respond_all-new limited hook [] (header 404) calls
