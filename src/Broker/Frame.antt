-- ===== src/Broker/Frame.antt =====
-- How crates/secrets/src/server.rs reads a request from a connection and picks its lane, and the
-- credentials it asks of a peer first. A read answers some bytes, none at the end of the file, or
-- fails; each is at most what is left of the buffer.
use forward.Prelude.{
  suc, ◌+◌, ◌≤◌, ◌≡◌, ◌≢◌, refl, sym, ap, ◌∙◌, Bool, true, false, All, append_assoc, split-more,
  split-behind, Option, none, some, List, [], ◌∷◌, ◌++◌, arith, ltb, leb, if◌then◌else◌, Text,
  length, length-append, split_once, strip_suffix, Option-cases, inl, inr,
}
use forward.ErrCode.{ErrCode, Result, ok, err, bad_request}
use forward.Names.Laws.{strip_suffix-append}
use forward.Protocol.Request.{
  Request, ConnectionLane, request_lane, parse_request, max_frame_bytes, main,
}

pub data FrameRead : Type 0 where
  answered : Text → FrameRead
  failed : FrameRead

-- What the bytes of one read add: the line up to its newline ends the frame.
unfoldable pub take_chunk : Text → Text → Option (Text × Text) → Option Text → Option Text
take_chunk frame chunk (some (line, behind)) more = some (frame ++ (line ++ 10 ∷ []))
take_chunk frame [] none more = some frame
take_chunk frame (c ∷ chunk) none more = more

-- `read_frame`; `none` is an error of a read.
unfoldable pub read_frame : List FrameRead → Text → Option Text
read_frame [] frame = some frame
read_frame (failed ∷ reads) frame =
    if leb (suc max_frame_bytes) (length frame) then some frame else none
read_frame (answered chunk ∷ reads) frame =
    let more = read_frame reads (frame ++ chunk) in
    if leb (suc max_frame_bytes) (length frame)
    then some frame
    else take_chunk frame chunk (split_once 10 chunk) more

-- What is answered for a line that does not parse, whatever is wrong with it.
unfoldable pub bad_request_of : Result Request → Result Request
bad_request_of (ok request) = ok request
bad_request_of (err e) = err bad_request

-- The frame is one line, with its newline.
unfoldable pub parse_line : (Text → Bool) → Option Text → Result Request
parse_line is_utf8 none = err bad_request
parse_line is_utf8 (some line) =
    if leb (length line) max_frame_bytes
    then bad_request_of (parse_request is_utf8 line)
    else err bad_request

unfoldable pub parse_frame : (Text → Bool) → Text → Result Request
parse_frame is_utf8 frame = parse_line is_utf8 (strip_suffix (10 ∷ []) frame)

unfoldable pub peeked_lane : Result Request → Option ConnectionLane
peeked_lane (ok request) = some (request_lane request)
peeked_lane (err e) = none

unfoldable pub line_lane : (Text → Bool) → Option (Text × Text) → Option ConnectionLane
line_lane is_utf8 none = none
line_lane is_utf8 (some (line, behind)) =
    if ltb max_frame_bytes (length line) then none else peeked_lane (parse_request is_utf8 line)

-- `ready_request_lane`, for the bytes that wait to be read: at most a buffer of them.
unfoldable pub ready_request_lane : (Text → Bool) → Text → Option ConnectionLane
ready_request_lane is_utf8 waiting = line_lane is_utf8 (split_once 10 waiting)

-- The lane that `serve_listener` sends a connection to.
abbrev pub lane_or_main : Option ConnectionLane → ConnectionLane
lane_or_main none = main
lane_or_main (some lane) = lane

abbrev pub concat_reads : List Text → Text
concat_reads [] = []
concat_reads (chunk ∷ chunks) = chunk ++ concat_reads chunks

abbrev pub answers : List Text → List FrameRead
answers [] = []
answers (chunk ∷ chunks) = answered chunk ∷ answers chunks

read-behind :
    (chunk : Text) (chunks : List Text) (frame line' : Text)
    → read_frame (answers chunks) (frame ++ chunk) ≡ some ((frame ++ chunk) ++ (line' ++ 10 ∷ []))
    → read_frame (answers chunks) (frame ++ chunk) ≡ some (frame ++ ((chunk ++ line') ++ 10 ∷ []))
read-behind chunk chunks frame line' h =
    h
    ∙ ap some (
        append_assoc frame chunk (line' ++ 10 ∷ [])
        ∙ ap (λ t. frame ++ t) (sym (append_assoc chunk line' (10 ∷ []))))

-- However a line is cut into the answers of reads, none of which is empty, the frame is that line
-- with its newline, after what was read before; the line and that are at most a frame's length.
frame-answers :
    (chunks : List Text) (frame line rest : Text)
    → All (λ chunk. chunk ≢ []) chunks
    → split_once 10 (concat_reads chunks) ≡ some (line, rest)
    → length frame + length line ≤ max_frame_bytes
    → read_frame (answers chunks) frame ≡ some (frame ++ (line ++ 10 ∷ []))
unfolding read_frame take_chunk
frame-answers [] frame line rest filled found fits = absurd (cc found)
frame-answers (chunk ∷ chunks) frame line rest filled found fits =
    let short : leb (suc max_frame_bytes) (length frame) ≡ false = ground arith in
    rw short (elim (Option-cases (split_once 10 chunk)) [
      | inl missing ↦
          let (line', is_line, found') =
            split-behind chunk (concat_reads chunks) line rest missing found in
          let more = frame-answers chunks (frame ++ chunk) line' rest filled.1 found' (
            omega (
              arith,
              fits,
              ap length is_line,
              length-append chunk line',
              length-append frame chunk,
            )) in
          rw (missing, is_line) (passed chunk filled.0 ∙ read-behind chunk chunks frame line' more)
      | inr (r, here) ↦
          let again = split-more chunk (concat_reads chunks) r.0 r.1 here in
          let same : r.0 ≡ line = ground (arith, again, found) in rw (here, same) refl
    ])
  where
    passed :
        (c : Text)
        → c ≢ []
        → take_chunk frame c none (read_frame (answers chunks) (frame ++ chunk))
          ≡ read_frame (answers chunks) (frame ++ chunk)
    passed [] h = absurd (h refl)
    passed (x ∷ c) h = refl

-- What a frame comes to, by what its line parses to.
pub data ServedAs : Result Request → Result Request → Type 0 where
  serves : {request : Request} → ServedAs (ok request) (ok request)
  refuses : {e : ErrCode} → ServedAs (err e) (err bad_request)

served : (r : Result Request) → ServedAs r (bad_request_of r)
unfolding bad_request_of
served (ok request) = serves
served (err e) = refuses

-- What a connection sends is answered as its first line is, however it cuts what it sends into
-- reads: where that line has at most `MAX_FRAME_BYTES` bytes before its newline, it is served as the
-- request that the line parses to, and answered BAD_REQUEST where the line does not parse, whatever
-- code the parser gave.
pub parse_frame-answers :
    (is_utf8 : Text → Bool) (chunks : List Text) (line rest : Text)
    → All (λ chunk. chunk ≢ []) chunks
    → split_once 10 (concat_reads chunks) ≡ some (line, rest)
    → length line ≤ max_frame_bytes
    → (frame : Text) × (read_frame (answers chunks) [] ≡ some frame)
      × ServedAs (parse_request is_utf8 line) (parse_frame is_utf8 frame)
unfolding parse_frame parse_line
parse_frame-answers is_utf8 chunks line rest filled found fits =
    let short : leb (length line) max_frame_bytes ≡ true = ground arith in
    (
      line ++ 10 ∷ [],
      frame-answers chunks [] line rest filled found (omega (arith, fits)),
      rw (strip_suffix-append (10 ∷ []) line) (rw short (served (parse_request is_utf8 line))),
    )

-- The lane that is picked by the bytes that wait is that of the request that is then read, where
-- they hold its line.
pub ready_request_lane-parse_frame :
    (is_utf8 : Text → Bool) (line rest : Text) (request : Request)
    → split_once 10 (line ++ 10 ∷ rest) ≡ some (line, rest)
    → length line ≤ max_frame_bytes
    → parse_frame is_utf8 (line ++ 10 ∷ []) ≡ ok request
    → ready_request_lane is_utf8 (line ++ 10 ∷ rest) ≡ some (request_lane request)
unfolding parse_frame parse_line ready_request_lane line_lane peeked_lane
ready_request_lane-parse_frame is_utf8 line rest request found fits h =
    let short : leb (length line) max_frame_bytes ≡ true = ground arith in
    let long : ltb max_frame_bytes (length line) ≡ false = ground arith in
    let parsed : parse_request is_utf8 line ≡ ok request =
      was_ok (parse_request is_utf8 line)
        (sym (rw (strip_suffix-append (10 ∷ []) line) (rw short refl)) ∙ h) in
    rw (found, long, parsed) refl
  where
    was_ok : (r : Result Request) → bad_request_of r ≡ ok request → r ≡ ok request
    was_ok (ok other) e = unfold bad_request_of in e
    was_ok (err code) e = absurd (unfold bad_request_of in cc e)
