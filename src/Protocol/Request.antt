-- ===== src/Protocol/Request.antt =====
-- crates/secrets/src/proto/request.rs: the request grammar. Whether bytes are UTF-8 is what the
-- standard library answers, an argument here. The lane of a request is in crates/secrets/src/server.rs.
use forward.Prelude.{
  ap, ◌∙◌, all_bytes, ℕ, zero, suc, ◌+◌, ◌≤◌, ◌<◌, ◌≡◌, ◌≢◌, refl, Bool, true, false, ◌&&◌, ◌||◌,
  not, Option, none, some, List, [], ◌∷◌, ◌++◌, arith, ltb, leb, ◌==◌, if◌then◌else◌, Text, text_eq,
  codes, length, split_once, is_some, u64_max,
}
use forward.ErrCode.{Result, ok, err, bad_request, unknown_op, ◌>>=◌}
use forward.Protocol.Numbers.{ℤ, parse_unsigned, parse_i32, u32_max}

pub data Request : Type 0 where
  hello : ℕ → Request
  register : Text → Text → ℤ → Request
  unregister : Text → Request
  get : Text → Option Text → Option Text → Option ℕ → Request
  request_grant : Text → Option Text → Option Text → Option ℕ → Request
  authorize : Text → Option Text → Option Text → Request
  redeem : Text → Text → Request
  grants : Request
  deny : ℕ → Request
  lock : Request
  subscribe : Request

abbrev pub max_frame_bytes : ℕ
max_frame_bytes = 4096

abbrev pub Fields : Type 0
Fields = List (Text × Text)

abbrev pub field : Fields → Text → Option Text
field [] name = none
field (f ∷ fields) name =
    let rest = field fields name in if text_eq f.0 name then some f.1 else rest

abbrev or_bad {ℓ} : {A : Type ℓ} → Option A → Result A
or_bad none = err bad_request
or_bad (some a) = ok a

abbrev pub required : Fields → Text → Result Text
required fields name = or_bad (field fields name)

abbrev pub cons_part : ℕ → List Text → List Text
cons_part c [] = (c ∷ []) ∷ []
cons_part c (part ∷ parts) = (c ∷ part) ∷ parts

-- `split('\t')`: there is always a first part.
abbrev pub split_tabs : Text → List Text
split_tabs [] = [] ∷ []
split_tabs (c ∷ s) = let parts = split_tabs s in if c == 9 then [] ∷ parts else cons_part c parts

-- The loop over the parts: a field has a `=`, and no two have one name. The fields that were read
-- before come first.
add_field : Fields → Option (Text × Text) → Result Fields
add_field fields none = err bad_request
add_field fields (some (name, value)) =
    if is_some (field fields name) then err bad_request else ok (fields ++ (name, value) ∷ [])

unfoldable pub read_fields : Fields → List Text → Result Fields
unfolding add_field
read_fields fields [] = ok fields
read_fields fields (part ∷ parts) =
    add_field fields (split_once 61 part) >>= λ fields'. read_fields fields' parts

not_zero : Option ℕ → Result (Option ℕ)
not_zero none = err bad_request
not_zero (some zero) = err bad_request
not_zero (some (suc n)) = ok (some (suc n))

ttl_of : Option Text → Result (Option ℕ)
unfolding not_zero
ttl_of none = ok none
ttl_of (some raw) = not_zero (parse_unsigned u64_max raw)

unfoldable pub ttl_secs : Fields → Result (Option ℕ)
unfolding ttl_of
ttl_secs fields = ttl_of (field fields (codes "ttl"))

unfoldable pub parse_hello : Fields → Result Request
parse_hello fields = do
  version ← required fields (codes "version")
  number ← or_bad (parse_unsigned u32_max version)
  ok (hello number)

unfoldable pub parse_register : Fields → Result Request
parse_register fields = do
  token ← required fields (codes "token")
  id ← required fields (codes "session")
  raw_pid ← required fields (codes "pid")
  pid ← or_bad (parse_i32 raw_pid)
  ok (register token id pid)

unfoldable pub parse_access :
    (Text → Option Text → Option Text → Option ℕ → Request) → Fields → Result Request
parse_access make fields = do
  key ← required fields (codes "key")
  ttl ← ttl_secs fields
  ok (make key (field fields (codes "token")) (field fields (codes "tty")) ttl)

unfoldable pub parse_authorize : Fields → Result Request
parse_authorize fields = do
  cap ← required fields (codes "cap")
  ok (authorize cap (field fields (codes "token")) (field fields (codes "tty")))

unfoldable pub parse_redeem : Fields → Result Request
parse_redeem fields = do
  receipt ← required fields (codes "receipt")
  cap ← required fields (codes "cap")
  ok (redeem receipt cap)

unfoldable pub parse_deny : Fields → Result Request
parse_deny fields = do
  raw ← required fields (codes "id")
  id ← or_bad (parse_unsigned u64_max raw)
  ok (deny id)

unfoldable pub parse_subscribe : Fields → Result Request
parse_subscribe [] = ok subscribe
parse_subscribe (f ∷ fields) = err bad_request

-- `match op`
unfoldable pub parse_op : Text → Fields → Result Request
parse_op op fields =
    if text_eq op (codes "HELLO")
    then parse_hello fields
    else if text_eq op (codes "REGISTER")
    then parse_register fields
    else if text_eq op (codes "UNREGISTER")
    then (required fields (codes "session") >>= λ id. ok (unregister id))
    else if text_eq op (codes "GET")
    then parse_access get fields
    else if text_eq op (codes "REQUEST")
    then parse_access request_grant fields
    else if text_eq op (codes "AUTHORIZE")
    then parse_authorize fields
    else if text_eq op (codes "REDEEM")
    then parse_redeem fields
    else if text_eq op (codes "GRANTS")
    then ok grants
    else if text_eq op (codes "DENY")
    then parse_deny fields
    else if text_eq op (codes "LOCK")
    then ok lock
    else if text_eq op (codes "SUBSCRIBE")
    then parse_subscribe fields
    else err unknown_op

unfoldable pub parse_parts : List Text → Result Request
parse_parts [] = err bad_request
parse_parts (op ∷ parts) = read_fields [] parts >>= λ fields. parse_op op fields

unfoldable pub parse_request : (Text → Bool) → Text → Result Request
parse_request is_utf8 [] = err bad_request
parse_request is_utf8 (c ∷ line) =
    if ltb max_frame_bytes (length (c ∷ line))
    then err bad_request
    else if is_utf8 (c ∷ line)
    then parse_parts (split_tabs (c ∷ line))
    else err bad_request

pub data ConnectionLane : Type 0 where
  main fast control subscription : ConnectionLane

unfoldable pub request_lane : Request → ConnectionLane
request_lane (get key token path ttl) = main
request_lane (request_grant key token path ttl) = main
request_lane (authorize cap token path) = main
request_lane (hello version) = fast
request_lane (register token id pid) = fast
request_lane (unregister id) = fast
request_lane grants = fast
request_lane (redeem receipt cap) = fast
request_lane (deny id) = control
request_lane lock = control
request_lane subscribe = subscription

abbrev pub no_tab : ℕ → Bool
no_tab c = not (c == 9)

split_tabs-one : (s : Text) → all_bytes no_tab s ≡ true → split_tabs s ≡ s ∷ []
split_tabs-one [] h = refl
split_tabs-one (c ∷ s) h = ground (arith, split_tabs-one s)

split_tabs-append :
    (s rest : Text) → all_bytes no_tab s ≡ true → split_tabs (s ++ 9 ∷ rest) ≡ s ∷ split_tabs rest
split_tabs-append [] rest h = refl
split_tabs-append (c ∷ s) rest h = ground (arith, split_tabs-append s rest)

-- What a client writes to redeem a receipt, without the newline.
abbrev pub redeem_line : Text → Text → Text
redeem_line receipt cap =
    codes "REDEEM" ++ 9 ∷ ((codes "receipt=" ++ receipt) ++ 9 ∷ (codes "cap=" ++ cap))

redeem_parts :
    (receipt cap : Text)
    → all_bytes no_tab receipt ≡ true
    → all_bytes no_tab cap ≡ true
    → split_tabs (redeem_line receipt cap)
      ≡ codes "REDEEM" ∷ (codes "receipt=" ++ receipt) ∷ (codes "cap=" ++ cap) ∷ []
redeem_parts receipt cap hr hc =
    split_tabs-append (codes "REDEEM") ((codes "receipt=" ++ receipt) ++ 9 ∷ (codes "cap=" ++ cap))
      refl
    ∙ ap (λ r. codes "REDEEM" ∷ r)
        (split_tabs-append (codes "receipt=" ++ receipt) (codes "cap=" ++ cap) hr
          ∙ ap (λ r. (codes "receipt=" ++ receipt) ∷ r) (split_tabs-one (codes "cap=" ++ cap) hc))

framed :
    (is_utf8 : Text → Bool) (c : ℕ) (line : Text)
    → is_utf8 (c ∷ line) ≡ true
    → length (c ∷ line) ≤ max_frame_bytes
    → parse_request is_utf8 (c ∷ line) ≡ parse_parts (split_tabs (c ∷ line))
unfolding parse_request
framed is_utf8 c line utf8 fits =
    let short : ltb max_frame_bytes (length (c ∷ line)) ≡ false = ground arith in
    rw short (rw utf8 refl)

redeem_read :
    (receipt cap : Text)
    → parse_parts (codes "REDEEM" ∷ (codes "receipt=" ++ receipt) ∷ (codes "cap=" ++ cap) ∷ [])
      ≡ ok (redeem receipt cap)
unfolding parse_parts parse_op parse_redeem read_fields forward.Prelude.Text-discrete
redeem_read receipt cap = refl

-- A REDEEM frame with a receipt and a capability that hold no tab is read back as it was written,
-- where it fits a frame and is UTF-8.
pub parse_request-redeem :
    (is_utf8 : Text → Bool) (receipt cap : Text)
    → is_utf8 (redeem_line receipt cap) ≡ true
    → length (redeem_line receipt cap) ≤ max_frame_bytes
    → all_bytes no_tab receipt ≡ true
    → all_bytes no_tab cap ≡ true
    → parse_request is_utf8 (redeem_line receipt cap) ≡ ok (redeem receipt cap)
parse_request-redeem is_utf8 receipt cap utf8 fits hr hc =
    framed is_utf8 82
      (codes "EDEEM" ++ 9 ∷ ((codes "receipt=" ++ receipt) ++ 9 ∷ (codes "cap=" ++ cap))) utf8 fits
    ∙ ap parse_parts (redeem_parts receipt cap hr hc)
    ∙ redeem_read receipt cap
