-- ===== src/Writers.antt =====
-- The writer that duplicates its writes, utils/writers.go, the errors put together,
-- utils/composite_error.go, and the response writer with a hook,
-- utils/httputils/flexible_response_writer.go.
pub mod Tee
pub mod Hook
mod Tests
use nedomi.Prelude.{
  ℕ, ◌+◌, ◌++◌, Bool, true, false, Option, none, some, List, [], ◌∷◌, map, ◌==◌, if◌then◌else◌,
  length,
}

-- CompositeError; AppendError leaves nil errors out.
unfoldable pub append_error : {Err : Type 0} → List Err → Option Err → List Err
append_error c none = c
append_error c (some err) = c ++ err ∷ []

unfoldable pub append_errors : {Err : Type 0} → List Err → List (Option Err) → List Err
unfolding append_error
append_errors c [] = c
append_errors c (err ∷ errs) = append_errors (append_error c err) errs

-- NewCompositeError; `none` is nil
unfoldable pub new_composite_error : {Err : Type 0} → List (Option Err) → Option (List Err)
unfolding append_errors
new_composite_error errs = elim (append_errors [] errs) [ [] ↦ none | err ∷ c ↦ some (err ∷ c) ]

-- An io.WriteCloser with the state `W`. `short_write` is io.ErrShortWrite.
pub record WriteCloser (W B Err : Type 0) : Type 0 where
  pub write : W → List B → W × (ℕ × Option Err)
  pub close : W → W × Option Err
  pub short_write : Err

module _ {W B Err : Type 0} (writer : WriteCloser W B Err) where
  -- Write of multiWriteCloser
  unfoldable pub multi_write : List W → List B → List W × (ℕ × Option Err)
  multi_write [] p = ([], (length p, none))
  multi_write (w ∷ ws) p =
      let (w', r) = writer.write w p in
      let rest = multi_write ws p in
      elim r.1 [
        | some err ↦ (w' ∷ ws, (r.0, some err))
        | none ↦
            if r.0 == length p
            then (w' ∷ rest.0, rest.1)
            else (w' ∷ ws, (r.0, some writer.short_write))
      ]

  -- Close of multiWriteCloser
  unfoldable pub multi_close : List W → List W × Option (List Err)
  unfolding new_composite_error
  multi_close ws =
      (map (λ w. (writer.close w).0) ws, new_composite_error (map (λ w. (writer.close w).1) ws))

-- What a hook sees and may change of a FlexibleResponseWriter, but for the headers.
pub record Fields (W : Type 0) : Type 0 where
  pub code : ℕ
  pub body_writer : Option W

-- FlexibleResponseWriter; `env` is the state behind the hook, with the headers.
pub record FlexibleResponseWriter (E W : Type 0) : Type 0 where
  pub env : E
  pub fields : Fields W
  pub wrote_header : Bool

module _ {E W B Err : Type 0} (writer : WriteCloser W B Err)
    (hook : E → Fields W → E × Fields W) where
  -- NewFlexibleResponseWriter
  abbrev pub new_flexible_response_writer : E → FlexibleResponseWriter E W
  new_flexible_response_writer e = record {
    env = e;
    fields = record { code = 200; body_writer = none };
    wrote_header = false;
  }

  -- WriteHeader
  unfoldable pub write_header : FlexibleResponseWriter E W → ℕ → FlexibleResponseWriter E W
  write_header frw code =
      let called = hook frw.env (record (frw.fields) { code = code }) in
      if frw.wrote_header
      then frw
      else record { env = called.0; fields = called.1; wrote_header = true }

  -- Write; `none` as the error's value is that of a body that is not initialized.
  unfoldable pub flexible_write :
      FlexibleResponseWriter E W → List B → FlexibleResponseWriter E W × (ℕ × Option (Option Err))
  unfolding write_header
  flexible_write frw buf =
      let frw' = if frw.wrote_header then frw else write_header frw frw.fields.code in
      elim frw'.fields.body_writer [
        | none ↦ (frw', (0, some none))
        | some w ↦
            let (w', r) = writer.write w buf in
            (
              record frw' { fields = record (frw'.fields) { body_writer = some w' } },
              (r.0, elim r.1 [ none ↦ none | some err ↦ some (some err) ]),
            )
      ]
