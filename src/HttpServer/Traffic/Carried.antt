-- ===== src/HttpServer/Traffic/Carried.antt =====
-- What has passed through a connection, against what it holds.
use mathlib.Core.List.{append-nil, append_assoc}
use mathlib.Core.Path.{ap₂}
use mini_server.Prelude.{ℕ, ◌≡◌, sym, ap, ◌∙◌, false, Option, none, some, List, [], ◌∷◌, ◌++◌}
use mini_server.Bytes.{Bytes}
use mini_server.Connection.{Connection, extract_one_request, append_read_data, clear_write_data}
use mini_server.Connection.Sending.{remaining}
use mini_server.Connection.Framing.{extract_one_request-splits, extract_one_request_keeps}
use mini_server.HttpRequest.{http_request, parse}
use mini_server.HttpServer.{Outside, respond, finish_processing}
use mini_server.HttpServer.Answers.{response_bytes, respond-remaining}
use mini_server.HttpServer.Phases.Answering.{respond-IsAnswered}
use mini_server.HttpServer.Phases.Processing.{finish_processing-open}
use mini_server.HttpServer.Phases.Writing.{cleared}
use mini_server.HttpServer.Traffic.{Traffic, took}
use mini_server.HttpServer.Traffic.Unmoved.{IsUnmoved}

-- The bytes of some requests, and the responses to them, one behind the other.
unfoldable pub request_bytes : List (Outside × Bytes) → Bytes
request_bytes [] = []
request_bytes ((o, raw) ∷ rs) = raw ++ request_bytes rs

unfoldable pub responses : Bytes → List (Outside × Bytes) → Bytes
responses root [] = []
responses root ((o, raw) ∷ rs) = response_bytes o root (parse raw http_request) ++ responses root rs

request_bytes-snoc :
    (rs : List (Outside × Bytes)) (o : Outside) (raw : Bytes)
    → request_bytes (rs ++ (o, raw) ∷ []) ≡ request_bytes rs ++ raw
unfolding request_bytes
request_bytes-snoc [] o raw = append-nil raw
request_bytes-snoc ((p, x) ∷ rs) o raw =
    ap (◌++◌ x) (request_bytes-snoc rs o raw) ∙ sym (append_assoc x (request_bytes rs) raw)

responses-snoc :
    (root : Bytes) (rs : List (Outside × Bytes)) (o : Outside) (raw : Bytes)
    → responses root (rs ++ (o, raw) ∷ [])
      ≡ responses root rs ++ response_bytes o root (parse raw http_request)
unfolding responses
responses-snoc root [] o raw = append-nil (response_bytes o root (parse raw http_request))
responses-snoc root ((p, x) ∷ rs) o raw =
    let first = response_bytes p root (parse x http_request) in
    ap (◌++◌ first) (responses-snoc root rs o raw)
    ∙ sym (append_assoc first (responses root rs) (response_bytes o root (parse raw http_request)))

-- The received bytes are the requests and the read buffer; the sent bytes and those left to send are the
-- responses to the requests.
abbrev pub IsCarriedBy : Bytes → Traffic → Connection → Type 0
IsCarriedBy root t c =
    (t.received ≡ request_bytes t.requests ++ c.read_buf)
    × (t.sent ++ remaining c ≡ responses root t.requests)

abbrev pub IsCarried : Bytes → Traffic → Option Connection → Type 0
IsCarried root t none = Unit
IsCarried root t (some c) = IsCarriedBy root t c

module _ (o : Outside) (root : Bytes) (t : Traffic) where
  pub unmoved-IsCarried :
      (a b : Option Connection) → IsUnmoved a b → IsCarried root t a → IsCarried root t b
  unmoved-IsCarried a none h k = tt
  unmoved-IsCarried none (some d) h k = absurd h
  unmoved-IsCarried (some c) (some d) h k =
      (k.0 ∙ ap (◌++◌ (request_bytes t.requests)) (sym h.0), ap (◌++◌ t.sent) h.1 ∙ k.1)

  -- A request is taken off the buffer and its response is all that is to be sent.
  pub took-IsCarried :
      (now : ℕ) (c c' : Connection) (raw : Bytes)
      → c.closed ≡ false
      → remaining c ≡ []
      → extract_one_request c ≡ (c', some raw)
      → IsCarriedBy root t c
      → IsCarriedBy root (took o (some raw) t) (finish_processing (respond o root now raw c'))
  unfolding remaining
  took-IsCarried now c c' raw open_now e found k =
      let a = respond-IsAnswered o root now raw c' in
      let keeps = extract_one_request_keeps c c' raw found in
      let d = respond o root now raw c' in
      let shut = a.same_closed ∙ ap (λ (x : Connection). x.closed) keeps ∙ open_now in
      rw (finish_processing-open d shut) (
        k.0
            ∙ ap (◌++◌ (request_bytes t.requests))
                (extract_one_request-splits c c' raw found ∙ ap (◌++◌ raw) (sym a.same_read))
            ∙ sym (append_assoc (request_bytes t.requests) raw d.read_buf)
            ∙ ap (λ x. x ++ d.read_buf) (sym (request_bytes-snoc t.requests o raw)),
        ap₂ ◌++◌ (sym (append-nil t.sent) ∙ ap (◌++◌ t.sent) (sym e) ∙ k.1)
              (respond-remaining o root now raw c').0
            ∙ sym (responses-snoc root t.requests o raw),
      )

  -- Bytes are read.
  pub read-IsCarried :
      (now : ℕ) (b : Bytes) (c : Connection)
      → IsCarriedBy root t c
      → IsCarriedBy root (record t { received = t.received ++ b }) (append_read_data now b c)
  unfolding append_read_data remaining
  read-IsCarried now b c k =
      (ap (λ x. x ++ b) k.0 ∙ append_assoc (request_bytes t.requests) c.read_buf b, k.1)

  -- A response is sent to its end.
  pub cleared-IsCarried :
      (c : Connection) → remaining c ≡ [] → IsCarriedBy root t c → IsCarriedBy root t (cleared c)
  unfolding clear_write_data remaining
  cleared-IsCarried c e k = (k.0, ap (◌++◌ t.sent) (sym e) ∙ k.1)
