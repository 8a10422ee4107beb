-- ===== src/Livestream/Comments/Handlers.antt =====
-- livestream-poc/server/internal/comments/handlers.go: `PostComment` and `writeEvent`.
-- What encoding/json reads from the body is an argument, `none` if it fails.
use classic_cheese.Prelude.{
  ℕ, ◌≡◌, ◌≢◌, refl, String, [], ◌∷◌, Option, none, some, ite, if_pos, if_neg, String_discrete, ◌⊎◌,
  inl, inr,
}
use classic_cheese.Prelude.Int.{ℤ, pos}
use classic_cheese.Prelude.Text.{concat}
use classic_cheese.Prelude.Decimal.{itoa}
use classic_cheese.Http.{
  Reply, json, http_error, set_header, status_ok, status_bad_request, status_method_not_allowed,
}
use classic_cheese.Livestream.Comments.Hub.{Event}
use classic_cheese.Livestream.Comments.Hub.Order.{IsValid}
use classic_cheese.Livestream.Comments.Service.{
  Comment, Service, Fields, Result, ok, err, AddError, video_id_required, author_required,
  text_required, author_too_long, text_too_long, max_author_len, max_text_len, trim, check,
  add_comment,
}
use classic_cheese.Livestream.Comments.Service.Validate.{
  IsAcceptable, without_spaces, IsJudged, Breaks, check-IsJudged,
}
use classic_cheese.Livestream.Comments.Service.AddComment.{
  Added, add_comment_accepted, add_comment_rejected,
}

-- `err.Error()`.
unfoldable pub error_text : AddError → String
unfolding concat itoa
error_text video_id_required = "video_id is required"
error_text author_required = "author is required"
error_text text_required = "text is required"
error_text author_too_long =
    concat ("author must be at most " ∷ itoa (pos max_author_len) ∷ " characters" ∷ [])
error_text text_too_long =
    concat ("text must be at most " ∷ itoa (pos max_text_len) ∷ " characters" ∷ [])

unfoldable pub write_event : Event → String
unfolding concat
write_event ev = concat ("event: " ∷ ev.name ∷ "\ndata: " ∷ ev.payload ∷ "\n\n" ∷ [])

unfoldable pub comment_reply : Result (Comment × ℤ) → Reply (Comment × ℤ)
unfolding error_text http_error
comment_reply (err e) = http_error [] (error_text e) status_bad_request
comment_reply (ok added) = record {
  status = status_ok;
  headers = set_header "Content-Type" "application/json" [];
  body = json added;
}

module _ (marshal : Comment → Option String) (now : ℕ) where
  unfoldable pub answer_comment :
      Option (Service × Result (Comment × ℤ)) → Option (Service × Reply (Comment × ℤ))
  unfolding comment_reply
  answer_comment none = none
  answer_comment (some (s, r)) = some (s, comment_reply r)

  unfoldable pub post_decoded : Option Fields → Service → Option (Service × Reply (Comment × ℤ))
  unfolding answer_comment add_comment
  post_decoded none s = some (s, http_error [] "invalid JSON body" status_bad_request)
  post_decoded (some f) s = answer_comment (add_comment marshal now f s)

  unfoldable pub post_comment :
      String → Option Fields → Service → Option (Service × Reply (Comment × ℤ))
  unfolding post_decoded
  post_comment method body s = ite (String_discrete method "POST") (post_decoded body s) (
      some (
        s,
        http_error (set_header "Allow" "POST" []) "method not allowed" status_method_not_allowed,
      ))

  -- A request that is not answered by 200 leaves the service as it was.
  abbrev pub IsRefused : Service → Option (Service × Reply (Comment × ℤ)) → ℕ → Type 0
  IsRefused s r code = (reply : Reply (Comment × ℤ)) × (r ≡ some (s, reply)) × (reply.status ≡ code)

  abbrev IsAccepted : Fields → Service → Option (Service × Reply (Comment × ℤ)) → Type 0
  IsAccepted f s r =
      (s' : Service) × (c : Comment) × (n : ℤ) × (reply : Reply (Comment × ℤ)) × (r
        ≡ some (s', reply))
      × (reply.status ≡ status_ok)
      × (reply.body ≡ json (c, n))
      × Added marshal now (without_spaces f) s s' c n

  -- What the handler owes to each request.
  abbrev pub Owes : Option Fields → Service → Option (Service × Reply (Comment × ℤ)) → Type 0
  Owes none s r = IsRefused s r status_bad_request
  Owes (some f) s r =
      (IsAcceptable (without_spaces f) × IsAccepted f s r)
      ⊎ ((e : AddError) × Breaks (without_spaces f) e
          × (r ≡ some (s, http_error [] (error_text e) status_bad_request)))

  judged-Owes :
      (f : Fields) (s : Service) (r : Result Fields)
      → IsValid s.hub
      → IsJudged (without_spaces f) r
      → Owes (some f) s (post_decoded (some f) s)
  unfolding post_decoded answer_comment comment_reply
  judged-Owes f s (err e) v j = inr (e, j, rw (add_comment_rejected marshal now f e s j))
  judged-Owes f s (ok g) v j =
      let (s', c, n, returned, added) = add_comment_accepted marshal now f s v j.0 in
      inl (j.0, (s', c, n, comment_reply (ok (c, n)), rw returned, refl, refl, added))

  post_decoded-Owes :
      (body : Option Fields) (s : Service) → IsValid s.hub → Owes body s (post_decoded body s)
  unfolding post_decoded http_error
  post_decoded-Owes none s v = (_, refl, refl)
  post_decoded-Owes (some f) s v = judged-Owes f s (check (trim f)) v (check-IsJudged (trim f))

  -- Every POST is answered: 200 with the comment and the count exactly for acceptable fields, and
  -- otherwise 400 with the message of the first rule broken and no change.
  pub post_comment-Owes :
      (body : Option Fields) (s : Service)
      → IsValid s.hub
      → Owes body s (post_comment "POST" body s)
  unfolding post_comment
  post_comment-Owes body s v =
      rw (if_pos (String_discrete "POST" "POST") refl) (post_decoded-Owes body s v)

  -- Another method is answered by 405 and changes nothing.
  pub post_comment_method :
      (method : String) (body : Option Fields) (s : Service)
      → method ≢ "POST"
      → IsRefused s (post_comment method body s) status_method_not_allowed
  unfolding post_comment http_error
  post_comment_method method body s h = (_, if_neg (String_discrete method "POST") h _ _, refl)
