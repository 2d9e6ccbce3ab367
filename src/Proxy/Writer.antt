-- ===== src/Proxy/Writer.antt =====
-- `connResponseWriter`: an HTTP response written onto the proxy's connection. The order in which a
-- map's keys are visited is a parameter.
use flux_pg_cluster.Base.{
  ℕ, ◌≡◌, refl, sym, ◌∙◌, Bool, true, false, not, List, [], ◌∷◌, ◌++◌, map, if◌then◌else◌,
}
use mathlib.Core.List.{append-nil, append_assoc}
use flux_pg_cluster.Text.{Text, equal}

-- `http.Header`, with one value to a key.
abbrev pub Header : Type 0
Header = List (Text × Text)

-- What is written on the connection, piece by piece.
pub data Piece : Type 0 where
  status_line : ℕ → Piece
  header_line : Text → Text → Piece
  end_of_header : Piece
  body : Text → Piece

pub record Writer : Type 0 where
  pub header : Header
  pub wrote_header : Bool
  pub written : List Piece

-- The calls that a handler makes: Header().Set, WriteHeader and Write.
pub data Call : Type 0 where
  set_header : Text → Text → Call
  write_header : ℕ → Call
  write : Text → Call

unfoldable pub set_key : Text → Text → Header → Header
unfolding equal
set_key k v [] = (k, v) ∷ []
set_key k v ((l, w) ∷ h) =
    let rest = set_key k v h in if equal k l then (k, v) ∷ h else (l, w) ∷ rest

abbrev pub line_of : Text × Text → Piece
line_of (k, v) = header_line k v

module _ (order : Header → Header) where
  -- The status line, the header, and its end.
  abbrev pub head : ℕ → Header → List Piece
  head status h = status_line status ∷ (map line_of (order h) ++ end_of_header ∷ [])

  -- `WriteHeader`
  unfoldable pub call_write_header : ℕ → Writer → Writer
  call_write_header status w =
      if w.wrote_header
      then w
      else record w { wrote_header = true; written = w.written ++ head status w.header }

  -- `Write`
  unfoldable pub call_write : Text → Writer → Writer
  call_write p w =
      let started = if not w.wrote_header then call_write_header 200 w else w in
      record started { written = started.written ++ body p ∷ [] }

  abbrev pub do_call : Call → Writer → Writer
  do_call (set_header k v) w = record w { header = set_key k v w.header }
  do_call (write_header status) w = call_write_header status w
  do_call (write p) w = call_write p w

  unfoldable pub do_calls : List Call → Writer → Writer
  do_calls [] w = w
  do_calls (c ∷ calls) w = do_calls calls (do_call c w)

  -- The bodies that are written.
  unfoldable pub bodies : List Call → List Piece
  bodies [] = []
  bodies (write p ∷ calls) = body p ∷ bodies calls
  bodies (c ∷ calls) = bodies calls

  -- The response as a whole: the header as it is at the first WriteHeader or Write, then every body.
  unfoldable pub response : Header → List Call → List Piece
  response h [] = []
  response h (set_header k v ∷ calls) = response (set_key k v h) calls
  response h (write_header status ∷ calls) = head status h ++ bodies calls
  response h (write p ∷ calls) = head 200 h ++ body p ∷ bodies calls

  after_header :
      (calls : List Call) (h : Header) (out : List Piece)
      → (do_calls calls (record { header = h; wrote_header = true; written = out })).written
        ≡ out ++ bodies calls
  unfolding do_calls bodies call_write call_write_header
  after_header [] h out = sym (append-nil out)
  after_header (set_header k v ∷ calls) h out = after_header calls (set_key k v h) out
  after_header (write_header status ∷ calls) h out = after_header calls h out
  after_header (write p ∷ calls) h out =
      after_header calls h (out ++ body p ∷ []) ∙ append_assoc out (body p ∷ []) (bodies calls)

  -- The calls of a handler write, piece by piece, the response that they stand for as a whole: one
  -- status line, of the first WriteHeader, or 200 where Write comes first; one header, as it was
  -- then; and all the bodies in order.
  pub do_calls-response :
      (calls : List Call) (h : Header)
      → (do_calls calls (record { header = h; wrote_header = false; written = [] })).written
        ≡ response h calls
  unfolding do_calls response bodies call_write call_write_header
  do_calls-response [] h = refl
  do_calls-response (set_header k v ∷ calls) h = do_calls-response calls (set_key k v h)
  do_calls-response (write_header status ∷ calls) h = after_header calls h (head status h)
  do_calls-response (write p ∷ calls) h =
      after_header calls h (head 200 h ++ body p ∷ [])
      ∙ append_assoc (head 200 h) (body p ∷ []) (bodies calls)
