-- ===== src/Connect/Client.antt =====
-- internal/automation/modules/connect/module.go, client.do: from the object of a script over a
-- request to the object of its answer. net/http and protojson are other packages'.
use events_service.Base.{
  ℕ, List, [], ◌∷◌, Bool, String, Option, none, some, if◌then◌else◌, ◌==◌, nat_eq, nat_eqb_iff, ◌≡◌,
  refl, sym, ap, ◌∙◌, arith, Bool-cases, ◌⊎◌, inl, inr,
}
use events_service.Base.Try.{
  Try, returned, thrown, ◌>>=◌, or_throw, Try-cases, >>=-eq-returned, or_throw-eq-returned,
}
use events_service.Connect.Messages.{Messages, MessageError, object_to_proto}
use events_service.Connect.{Discoverer, resolve_endpoint, Header, Options, request_header}

-- http.Request, which is always a POST
pub record Request : Type 0 where
  pub url : String
  pub header : Header
  pub body : List ℕ

-- http.Response; `body` is what io.ReadAll makes of its body, if it can be read.
pub record Response : Type 0 where
  pub status_code : ℕ
  pub body : Option (List ℕ)

-- What common.Throw throws.
pub data CallError : Type 0 where
  bad_argument : MessageError → CallError
  no_payload : CallError
  no_endpoint : CallError
  no_request : CallError
  no_response : CallError
  unexpected_status : ℕ → CallError
  no_body : CallError
  no_answer : CallError

-- What the other packages do: http.CanonicalHeaderKey, http.NewRequest and http.Client.Do, and
-- protojson without options. A request that is not answered gives an error.
pub record Net (D M : Type 0) : Type 0 where
  pub canonical : String → String
  pub new_request : String → Bool
  pub answer : Request → Option Response
  pub marshal : M → Option (List ℕ)
  pub unmarshal : D → List ℕ → Option M

-- What the struct client holds, but for what other packages are.
pub record Client (D : Type 0) : Type 0 where
  pub service : String
  pub method : String
  pub request : D
  pub response : D
  pub headers : List (String × String)

abbrev pub converted : {M : Type 0} → Try MessageError M → Try CallError M
converted (thrown e) = thrown (bad_argument e)
converted (returned m) = returned m

returned-converted :
    {M : Type 0} (t : Try MessageError M) (m : M) → converted t ≡ returned m → t ≡ returned m
returned-converted (thrown e) m h = cc
returned-converted (returned n) m h = ap (λ x. returned x) (ground arith)

module _ {D M V : Type 0} (ms : Messages D M V) (net : Net D M) (disc : Discoverer) where
  -- The request of do.
  unfoldable pub request_of : Client D → V → Options → Try CallError Request
  unfolding object_to_proto resolve_endpoint request_header
  request_of c obj options = do
    payload ← converted (object_to_proto ms obj c.request)
    blob ← or_throw (net.marshal payload) no_payload
    ep ← or_throw (resolve_endpoint disc c.service c.method) no_endpoint
    _ ← or_throw (if net.new_request ep then some tt else none) no_request
    returned
        (record { url = ep; header = request_header net.canonical c.headers options; body = blob })

  -- The object of a body.
  abbrev pub value_of : Client D → List ℕ → Try CallError V
  value_of c body = do
    res ← or_throw (net.unmarshal c.response body) no_answer
    proto_blob ← or_throw (net.marshal res) no_answer
    or_throw (ms.json_value proto_blob) no_answer

  -- What do makes of the response.
  unfoldable pub result_of : Client D → Response → Try CallError V
  result_of c response =
      if response.status_code == 200
      then (do body ← or_throw response.body no_body; value_of c body)
      else thrown (unexpected_status response.status_code)

  abbrev pub sent : Client D → Try CallError Request → List Request × Try CallError V
  sent c (thrown e) = ([], thrown e)
  sent c (returned req) = (req ∷ [], or_throw (net.answer req) no_response >>= result_of c)

  -- client.do, with the requests that it sends
  unfoldable pub do_call : Client D → V → Options → List Request × Try CallError V
  unfolding request_of result_of
  do_call c obj options = sent c (request_of c obj options)

  -- What the request says of the call.
  pub record RequestFor (c : Client D) (obj : V) (options : Options) (req : Request) : Type 0 where
    pub payload : M
    pub read : object_to_proto ms obj c.request ≡ returned payload
    pub written : net.marshal payload ≡ some req.body
    pub resolved : resolve_endpoint disc c.service c.method ≡ some req.url
    pub headed : req.header ≡ request_header net.canonical c.headers options

  -- What the result says of the response.
  pub record ResultFor (c : Client D) (response : Response) (v : V) : Type 0 where
    pub ok : response.status_code ≡ 200
    pub content : List ℕ
    pub read : response.body ≡ some content
    pub message : M
    pub parsed : net.unmarshal c.response content ≡ some message
    pub json : List ℕ
    pub written : net.marshal message ≡ some json
    pub object : ms.json_value json ≡ some v

  request_of-RequestFor :
      (c : Client D) (obj : V) (options : Options) (req : Request)
      → request_of c obj options ≡ returned req
      → RequestFor c obj options req
  unfolding request_of
  request_of-RequestFor c obj options req h =
      let (payload, h₁, k₁) = >>=-eq-returned (converted (object_to_proto ms obj c.request)) _ h in
      let (blob, h₂, k₂) = >>=-eq-returned (or_throw (net.marshal payload) no_payload) _ k₁ in
      let (ep, h₃, k₃) =
        >>=-eq-returned (or_throw (resolve_endpoint disc c.service c.method) no_endpoint) _ k₂ in
      let (_, h₄, k₄) =
        >>=-eq-returned (or_throw (if net.new_request ep then some tt else none) no_request) _ k₃ in
      let made : Request = record {
        url = ep;
        header = request_header net.canonical c.headers options;
        body = blob;
      } in
      let same : made ≡ req = cc k₄ in
      record {
        payload = payload;
        read = returned-converted (object_to_proto ms obj c.request) payload h₁;
        written = or_throw-eq-returned _ _ h₂ ∙ ap (λ (r : Request). some r.body) same;
        resolved = or_throw-eq-returned _ _ h₃ ∙ ap (λ (r : Request). some r.url) same;
        headed = ap (λ (r : Request). r.header) (sym same);
      }

  result_of-ResultFor :
      (c : Client D) (response : Response) (v : V)
      → result_of c response ≡ returned v
      → ResultFor c response v
  unfolding result_of
  result_of-ResultFor c response v h = elim (Bool-cases (response.status_code == 200)) [
    | inl ok ↦
        let (body, h₁, k₁) =
          >>=-eq-returned (or_throw response.body no_body) (λ b. value_of c b)
            (rw (result_of, ok) at h) in
        let (res, h₂, k₂) =
          >>=-eq-returned (or_throw (net.unmarshal c.response body) no_answer) _ k₁ in
        let (blob, h₃, k₃) = >>=-eq-returned (or_throw (net.marshal res) no_answer) _ k₂ in
        record {
          ok = (nat_eqb_iff response.status_code 200).0 ok;
          content = body;
          read = or_throw-eq-returned _ _ h₁;
          message = res;
          parsed = or_throw-eq-returned _ _ h₂;
          json = blob;
          written = or_throw-eq-returned _ _ h₃;
          object = or_throw-eq-returned _ _ k₃;
        }
    | inr differs ↦ absurd (ground arith)
  ]

  -- A call sends at most one request. Without one it throws, whatever the net would answer. The one
  -- that it sends goes to the endpoint that discovery gives for the client's service and method, has
  -- the script's argument as its body, by way of the method's input type, and the header of the
  -- client and the script's options; then either the call throws, or the request was answered with
  -- the status 200 and a body that the method's output type reads, and the call returns its object.
  pub do_call-sends :
      (c : Client D) (obj : V) (options : Options)
      → (((do_call c obj options).0 ≡ [])
          × (e : CallError) × ((do_call c obj options).1 ≡ thrown e))
        ⊎ ((req : Request) × ((do_call c obj options).0 ≡ req ∷ [])
            × RequestFor c obj options req
            × (((e : CallError) × ((do_call c obj options).1 ≡ thrown e))
                ⊎ ((v : V) × ((do_call c obj options).1 ≡ returned v)
                    × (response : Response) × (net.answer req ≡ some response)
                    × ResultFor c response v)))
  unfolding do_call
  do_call-sends c obj options = elim (Try-cases (request_of c obj options)) [
    | inl (e, threw) ↦ inl (rw threw refl, e, rw threw refl)
    | inr (req, made) ↦
        let answered = or_throw (net.answer req) no_response >>= result_of c in
        inr (
          req,
          rw made refl,
          request_of-RequestFor c obj options req made,
          elim (Try-cases answered) [
            | inl (e, threw) ↦ inl (e, rw made threw)
            | inr (v, gave) ↦
                let (response, got, result) =
                  >>=-eq-returned (or_throw (net.answer req) no_response) (result_of c) gave in
                inr (
                  v,
                  rw made gave,
                  response,
                  or_throw-eq-returned _ _ got,
                  result_of-ResultFor c response v result,
                )
          ],
        )
  ]
