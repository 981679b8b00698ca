-- ===== src/Writers/Hook.antt =====
-- The hook of the flexible response writer.
use nedomi.Prelude.{
  ℕ, ◌≡◌, refl, ap, ◌∙◌, true, Option, none, some, List, [], ◌∷◌, Option-cases, inl, inr,
}
use nedomi.Writers.{
  WriteCloser, Fields, FlexibleResponseWriter, new_flexible_response_writer, write_header,
  flexible_write,
}

-- A call of the writer.
pub data ResponseCall (B : Type 0) : Type 0 where
  header : ℕ → ResponseCall B
  body : List B → ResponseCall B

module _ {E W B Err : Type 0} (writer : WriteCloser W B Err)
    (hook : E → Fields W → E × Fields W) where
  unfoldable pub respond : FlexibleResponseWriter E W → ResponseCall B → FlexibleResponseWriter E W
  respond frw (header code) = write_header writer hook frw code
  respond frw (body buf) = (flexible_write writer hook frw buf).0

  unfoldable pub respond_all :
      FlexibleResponseWriter E W → List (ResponseCall B) → FlexibleResponseWriter E W
  unfolding respond
  respond_all frw [] = frw
  respond_all frw (c ∷ cs) = respond_all (respond frw c) cs

  -- The status that a first call sends.
  abbrev pub status : ResponseCall B → ℕ
  status (header code) = code
  status (body buf) = 200

  -- The body writer after the writes among the calls, if there is one.
  unfoldable pub written_body : Option W → List (ResponseCall B) → Option W
  written_body none cs = none
  written_body (some w) [] = some w
  written_body (some w) (header code ∷ cs) = written_body (some w) cs
  written_body (some w) (body buf ∷ cs) = written_body (some (writer.write w buf).0) cs

  -- The writer once the hook has run, with a body writer.
  abbrev sent : E → ℕ → Option W → FlexibleResponseWriter E W
  sent e code w = record {
    env = e;
    fields = record { code = code; body_writer = w };
    wrote_header = true;
  }

  rest-sent :
      (cs : List (ResponseCall B)) (e : E) (code : ℕ) (w : Option W)
      → respond_all (sent e code w) cs ≡ sent e code (written_body w cs)
  unfolding respond_all respond write_header flexible_write written_body
  rest-sent [] e code none = refl
  rest-sent [] e code (some w) = refl
  rest-sent (header k ∷ cs) e code none = rest-sent cs e code none
  rest-sent (header k ∷ cs) e code (some w) = rest-sent cs e code (some w)
  rest-sent (body buf ∷ cs) e code none = rest-sent cs e code none
  rest-sent (body buf ∷ cs) e code (some w) = rest-sent cs e code (some (writer.write w buf).0)

  -- What the first call leaves: the hook has run on the status of the call.
  abbrev pub after_hook : E → ResponseCall B → E × Fields W
  after_hook e c = hook e (record { code = status c; body_writer = none })

  first-sent :
      (e : E) (c : ResponseCall B)
      → respond (new_flexible_response_writer writer hook e) c
        ≡ sent
            (after_hook e c).0
            (after_hook e c).1.code
            (written_body (after_hook e c).1.body_writer (c ∷ []))
  unfolding respond write_header flexible_write written_body
  first-sent e (header k) = elim (Option-cases (after_hook e (header k)).1.body_writer) [
    | inl p ↦ rw p refl
    | inr (w, p) ↦ rw p refl
  ]
  first-sent e (body buf) = elim (Option-cases (after_hook e (body buf)).1.body_writer) [
    | inl p ↦ let f = after_hook e (body buf) in rw (p, flexible_write) (ap (sent f.0 f.1.code) p)
    | inr (w, p) ↦ rw (p, flexible_write) refl
  ]

  written_body-cons :
      (w : Option W) (c : ResponseCall B) (cs : List (ResponseCall B))
      → written_body (written_body w (c ∷ [])) cs ≡ written_body w (c ∷ cs)
  unfolding written_body
  written_body-cons none c cs = refl
  written_body-cons (some w) (header k) cs = refl
  written_body-cons (some w) (body buf) cs = refl

  -- Any calls of WriteHeader and Write on a new writer, one at least: the hook has run exactly once,
  -- on the status of the first call, which is its argument or 200 for a Write. The code is the one
  -- that the hook left, and every Write went to the body writer that the hook left, if any, in order.
  pub respond_all-new :
      (e : E) (c : ResponseCall B) (cs : List (ResponseCall B))
      → respond_all (new_flexible_response_writer writer hook e) (c ∷ cs) ≡ record {
        env = (after_hook e c).0;
        fields = record {
          code = (after_hook e c).1.code;
          body_writer = written_body (after_hook e c).1.body_writer (c ∷ cs);
        };
        wrote_header = true;
      }
  unfolding respond_all
  respond_all-new e c cs =
      let w = (after_hook e c).1.body_writer in
      let code = (after_hook e c).1.code in
      ap (λ f. respond_all f cs) (first-sent e c)
      ∙ rest-sent cs (after_hook e c).0 code (written_body w (c ∷ []))
      ∙ ap (sent (after_hook e c).0 code) (written_body-cons w c cs)
