-- ===== src/HttpApi/Middleware.antt =====
-- The middleware of services/api/internal/httpapi/observability.go, and `corsMiddleware` of
-- router.go. What reaches the wrapped writer is a list, first to last.
use learning_garden_server.Prelude.{
  ℕ, ◌+◌, ◌<◌, ◌≡◌, refl, ap, false, not, ◌⊎◌, inl, inr, Option, none, some, List, [], ◌∷◌, ◌++◌,
  Text, codes, text_eq, nat_eq, ◌==◌, is_empty, any, if◌then◌else◌, arith, All,
}
use learning_garden_server.Strings.{trim_space}
use learning_garden_server.Strconv.{hex_encode}

-- What a writer is given: a status, or bytes.
pub data Sent : Type 0 where
  header_sent : (status : ℕ) → Sent
  body_sent : List ℕ → Sent

-- `statusRecorder`, with what it passed on; a status of 0 is none yet.
pub record StatusRecorder : Type 0 where
  pub sent : List Sent
  pub status : ℕ
  pub bytes : ℕ

abbrev pub new_recorder : StatusRecorder
new_recorder = record { sent = []; status = 0; bytes = 0 }

unfoldable pub write_header : ℕ → StatusRecorder → StatusRecorder
write_header status r =
    if not (r.status == 0)
    then r
    else record r { status = status; sent = r.sent ++ header_sent status ∷ [] }

-- `written` is what the wrapped writer says that it wrote.
unfoldable pub write : List ℕ → (written : ℕ) → StatusRecorder → StatusRecorder
unfolding write_header
write body written r =
    let started = if r.status == 0 then write_header 200 r else r in
    record started { sent = started.sent ++ body_sent body ∷ []; bytes = started.bytes + written }

unfoldable pub status_code : StatusRecorder → ℕ
status_code r = if r.status == 0 then 200 else r.status

-- A handler's calls of the recorder, in their order.
pub data Call : Type 0 where
  call_header : (status : ℕ) → Call
  call_write : (body : List ℕ) (written : ℕ) → Call

abbrev perform : Call → StatusRecorder → StatusRecorder
perform (call_header status) r = write_header status r
perform (call_write body written) r = write body written r

unfoldable pub perform_all : List Call → StatusRecorder → StatusRecorder
unfolding write_header write
perform_all [] r = r
perform_all (call ∷ calls) r = perform_all calls (perform call r)

-- The call is one that `net/http` takes: it panics at a status below 100.
abbrev pub IsProper : Call → Type 0
IsProper (call_header status) = 0 < status
IsProper (call_write body written) = Unit

abbrev pub IsBody : Sent → Type 0
IsBody (header_sent status) = ⊥
IsBody (body_sent body) = Unit

-- Nothing was sent, or the recorded status first and bodies after it.
abbrev pub IsStarted : StatusRecorder → Type 0
IsStarted r =
    ((r.status ≡ 0) × (r.sent ≡ []))
    ⊎ ((0 < r.status)
        × (bodies : List Sent) × (r.sent ≡ header_sent r.status ∷ bodies)
        × All IsBody bodies)

All-snoc :
    (s : Sent) (bodies : List Sent) → All IsBody bodies → IsBody s → All IsBody (bodies ++ s ∷ [])
All-snoc s [] h k = (k, tt)
All-snoc s (b ∷ bodies) (p, h) k = (p, All-snoc s bodies h k)

perform-IsStarted :
    (call : Call) (r : StatusRecorder) → IsProper call → IsStarted r → IsStarted (perform call r)
unfolding write_header write
perform-IsStarted (call_header status) r p (inl (unset, none_sent)) =
    rw (unset, none_sent) (inr (p, [], refl, tt))
perform-IsStarted (call_header status) r p (inr (some_status, bodies, sent, h)) =
    let already : (r.status == 0) ≡ false = ground arith in
    rw already (inr (some_status, bodies, sent, h))
perform-IsStarted (call_write body written) r p (inl (unset, none_sent)) =
    rw (unset, none_sent) (inr (omega arith, body_sent body ∷ [], refl, (tt, tt)))
perform-IsStarted (call_write body written) r p (inr (some_status, bodies, sent, h)) =
    let already : (r.status == 0) ≡ false = ground arith in
    rw already (
      inr (
        some_status,
        bodies ++ body_sent body ∷ [],
        ap (λ l. l ++ body_sent body ∷ []) sent,
        All-snoc (body_sent body) bodies h tt,
      ))

perform_all-IsStarted :
    (calls : List Call) (r : StatusRecorder)
    → All IsProper calls
    → IsStarted r
    → IsStarted (perform_all calls r)
unfolding perform_all
perform_all-IsStarted [] r p h = h
perform_all-IsStarted (call ∷ calls) r (p, ps) h =
    perform_all-IsStarted calls (perform call r) ps (perform-IsStarted call r p h)

-- What the access log and the metrics report: 200 where nothing was sent, and else the one status
-- that was sent, before all bodies.
abbrev pub IsReported : StatusRecorder → Type 0
IsReported r =
    ((r.sent ≡ []) × (status_code r ≡ 200))
    ⊎ ((bodies : List Sent) × (r.sent ≡ header_sent (status_code r) ∷ bodies) × All IsBody bodies)

IsStarted-IsReported : (r : StatusRecorder) → IsStarted r → IsReported r
unfolding status_code
IsStarted-IsReported r (inl (unset, none_sent)) = inl (none_sent, rw unset)
IsStarted-IsReported r (inr (some_status, bodies, sent, h)) =
    let already : (r.status == 0) ≡ false = ground arith in inr (bodies, rw already sent, h)

-- However a handler calls the recorder, with statuses other than 0, the wrapped writer is given
-- nothing and the recorded code is 200, or it is given exactly one status, which is the recorded
-- code, before all bodies.
pub perform_all-IsReported :
    (calls : List Call) → All IsProper calls → IsReported (perform_all calls new_recorder)
perform_all-IsReported calls h =
    IsStarted-IsReported (perform_all calls new_recorder)
      (perform_all-IsStarted calls new_recorder h (inl (refl, refl)))

-- `requestIDMiddleware`: the id of the request, which the response repeats.
unfoldable pub request_id : (header drawn : Text) → Text
unfolding trim_space
request_id header drawn = let id = trim_space header in if is_empty id then drawn else id

-- `newRequestID`: the hex digits of 16 bytes, or the clock in base 36 where the random source fails.
unfoldable pub new_request_id : Option (List ℕ) → (clock : Text) → Text
unfolding hex_encode
new_request_id none clock = clock
new_request_id (some raw) clock = hex_encode raw

-- The `Access-Control` headers, which are set together, by the origin that they allow.
unfoldable pub cors_origin : List Text → (origin : Text) → Option Text
cors_origin allowed origin = if any (λ o. o == origin) allowed then some origin else none

-- `corsMiddleware`: the headers, and the next handler's answer unless the method is `OPTIONS`,
-- which is answered with 204.
unfoldable pub cors {ℓ} :
    {A : Type ℓ}
    → List Text
    → (origin method : Text) → (preflight : A) → (next : A) → Option Text × A
unfolding cors_origin
cors allowed origin method preflight next =
    (cors_origin allowed origin, if method == codes "OPTIONS" then preflight else next)
