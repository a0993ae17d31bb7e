-- ===== src/Http/Handle/Stages.antt =====
-- `operator()` of hikyuu/httpd/HttpHandle.cpp against one loop over a list of stages.
use hku_rest.Prelude.{◌≡◌, refl, ap, sym, subst, some, ℕ, ◌≢◌, ◌∙◌, List, [], ◌∷◌, ◌++◌, false}
use hku_rest.Prelude.Text.{Text, codes, text_eq}
use hku_rest.Connections.Ints.{ℤ}
use hku_rest.Http.{Request, Response}
use hku_rest.Http.Headers.{header, header-set}
use hku_rest.Http.Serve.{Handled}
use hku_rest.Http.Handle.{
  Work, Ended, passed, exception, failed, biz_exception, Stage, Check, HttpHandle, next, checked,
  apply_filters, json_answer, conclude, handled, handle, run_stages,
}

-- The stages in turn, up to the first that does not pass.
pub data Runs (req : Request) : List Stage → Work → Ended → Work → Type 0 where
  all_passed : {w : Work} → Runs req [] w passed w
  pass :
      {stage : Stage} {rest : List Stage} {w w' w'' : Work} {e : Ended}
      → stage req w ≡ (passed, w')
      → Runs req rest w' e w''
      → Runs req (stage ∷ rest) w e w''
  stop :
      {stage : Stage} {rest : List Stage} {w w' : Work} {e : Ended}
      → stage req w ≡ (e, w')
      → e ≢ passed
      → Runs req (stage ∷ rest) w e w'

-- A check as a stage.
abbrev pub stage_of : Check → Stage
stage_of check req w = checked (check req w)

abbrev pub stages_of : HttpHandle → List Stage
stages_of h = h.filters ++ stage_of h.before_run ∷ h.run ∷ stage_of h.after_run ∷ []

next_cong :
    (r : Ended × Work) (f g : Work → Ended × Work) → ((w : Work) → f w ≡ g w) → next r f ≡ next r g
next_cong (passed, w) f g h = h w
next_cong (exception, w) f g h = refl
next_cong (failed code, w) f g h = refl
next_cong (biz_exception code, w) f g h = refl

next_twice :
    (r : Ended × Work) (f g k : Work → Ended × Work)
    → ((w : Work) → f w ≡ next (g w) k)
    → next r f ≡ next (next r g) k
next_twice (passed, w) f g k h = h w
next_twice (exception, w) f g k h = refl
next_twice (failed code, w) f g k h = refl
next_twice (biz_exception code, w) f g k h = refl

apply_filters-append :
    (xs ys : List Stage) (req : Request) (w : Work)
    → apply_filters (xs ++ ys) req w ≡ next (apply_filters xs req w) (apply_filters ys req)
unfolding apply_filters
apply_filters-append [] ys req w = refl
apply_filters-append (x ∷ xs) ys req w =
    next_twice (x req w) _ _ (apply_filters ys req) (apply_filters-append xs ys req)

first_of :
    (stage : Stage) (rest : List Stage) (req : Request) (w : Work) (r : Ended × Work)
    → stage req w ≡ r
    → ((w' : Work) → Runs req rest w' (apply_filters rest req w').0 (apply_filters rest req w').1)
    → Runs req
        (stage ∷ rest)
        w
        (next r (apply_filters rest req)).0
        (next r (apply_filters rest req)).1
first_of stage rest req w (passed, w') e h = pass e (h w')
first_of stage rest req w (exception, w') e h = stop e (λ h. cc)
first_of stage rest req w (failed code, w') e h = stop e (λ h. cc)
first_of stage rest req w (biz_exception code, w') e h = stop e (λ h. cc)

apply_filters-Runs :
    (stages : List Stage) (req : Request) (w : Work)
    → Runs req stages w (apply_filters stages req w).0 (apply_filters stages req w).1
unfolding apply_filters
apply_filters-Runs [] req w = all_passed
apply_filters-Runs (stage ∷ rest) req w =
    first_of stage rest req w (stage req w) refl (apply_filters-Runs rest req)

next_passed : (r : Ended × Work) → next r (λ w. (passed, w)) ≡ r
next_passed (passed, w) = refl
next_passed (exception, w) = refl
next_passed (failed code, w) = refl
next_passed (biz_exception code, w) = refl

module _ (show : ℤ → Text) (biz_err_msg : ℤ → Text) (base_failed : ℤ) where
  run_stages_lem :
      (h : HttpHandle) (req : Request) (w : Work)
      → run_stages show biz_err_msg base_failed h req w ≡ apply_filters (stages_of h) req w
  unfolding apply_filters
  run_stages_lem h req w =
      next_cong (apply_filters h.filters req w) _ _ (λ w1.
        next_cong (checked (h.before_run req w1)) _ _ (λ w2.
          next_cong (h.run req w2) _ _ (λ w3. sym (next_passed (checked (h.after_run req w3))))))
      ∙ sym (apply_filters-append h.filters _ req w)

  pub handle_lem :
      (h : HttpHandle) (req : Request) (res : Response)
      → (e : Ended) × (w : Work) × Runs req
          (stages_of h)
          (record { response = res; chunks = []; sent = false })
          e
          w
        × (handle show biz_err_msg base_failed h req res
            ≡ handled show biz_err_msg base_failed (conclude show biz_err_msg base_failed (e, w)))
  unfolding handle
  handle_lem h req res =
      let start : Work = record { response = res; chunks = []; sent = false } in
      let r = apply_filters (stages_of h) req start in
      (
        r.0,
        r.1,
        apply_filters-Runs (stages_of h) req start,
        ap (λ r. handled show biz_err_msg base_failed (conclude show biz_err_msg base_failed r))
            (run_stages_lem h req start),
      )

  abbrev ret_text : ℤ → Text → Text
  ret_text code errmsg =
      codes "{\"ret\":" ++ (show code ++ (codes ",\"errmsg\":\"" ++ (errmsg ++ codes "\"}")))

  -- The response has this status and this JSON text, and every other field as the work has it.
  abbrev pub IsJson : ℕ → Text → Work → Handled → Type 0
  IsJson status body w r =
      (r.response.status ≡ status)
      × (r.response.body ≡ body)
      × (header (codes "Content-Type") r.response ≡ some (codes "application/json; charset=UTF-8"))
      × ((k : Text)
          → text_eq (codes "Content-Type") k ≡ false
          → header k r.response ≡ header k w.response)

  -- The response for each end.
  abbrev pub IsAnswer : Ended → Work → Handled → Type 0
  IsAnswer passed w r = r.response ≡ w.response
  IsAnswer (failed code) w r = IsJson 200 (ret_text code (biz_err_msg code)) w r
  IsAnswer (biz_exception code) w r = IsJson 200 (ret_text code (codes "biz exception")) w r
  IsAnswer exception w r = IsJson 500 (ret_text base_failed (codes "internal error")) w r

  json_answer-IsJson :
      (status : ℕ) (body : Text) (w : Work)
      → IsJson status body w (
          handled show biz_err_msg base_failed
            (json_answer show biz_err_msg base_failed status body w))
  unfolding header text_eq
  json_answer-IsJson status body w = (
    refl,
    refl,
    header-set (codes "Content-Type") (codes "Content-Type")
        (codes "application/json; charset=UTF-8")
        (record w.response { status = status; body = body }),
    λ k n.
        header-set k (codes "Content-Type") (codes "application/json; charset=UTF-8")
          (record w.response { status = status; body = body })
        ∙ rw n refl,
  )

  conclude-IsAnswer :
      (e : Ended) (w : Work)
      → IsAnswer e w
          (handled show biz_err_msg base_failed (conclude show biz_err_msg base_failed (e, w)))
  conclude-IsAnswer passed w = refl
  conclude-IsAnswer (failed code) w = json_answer-IsJson 200 _ w
  conclude-IsAnswer (biz_exception code) w = json_answer-IsJson 200 _ w
  conclude-IsAnswer exception w = json_answer-IsJson 500 _ w

  conclude-kept :
      (e : Ended) (w : Work)
      → ((conclude show biz_err_msg base_failed (e, w)).chunks ≡ w.chunks)
        × ((conclude show biz_err_msg base_failed (e, w)).sent ≡ w.sent)
  conclude-kept passed w = (refl, refl)
  conclude-kept (failed code) w = (refl, refl)
  conclude-kept (biz_exception code) w = (refl, refl)
  conclude-kept exception w = (refl, refl)

  -- A handler runs its filters, `before_run`, `run` and `after_run` in this order, up to the first
  -- that does not pass, and never throws itself. If all pass, the router gets the response, the chunks
  -- and the flag as the last stage left them. After an error code or a `BizException` the response has
  -- the status 200 and a JSON text with that code, after any other exception the status 500 and the
  -- library's code for a failure, and the fields, chunks and flag are those that the stage left, but
  -- for `Content-Type`.
  pub handle-Runs :
      (h : HttpHandle) (req : Request) (res : Response)
      → (e : Ended) × (w : Work) × Runs req
          (stages_of h)
          (record { response = res; chunks = []; sent = false })
          e
          w
        × IsAnswer e w (handle show biz_err_msg base_failed h req res)
        × ((handle show biz_err_msg base_failed h req res).chunks ≡ w.chunks)
        × ((handle show biz_err_msg base_failed h req res).sent ≡ w.sent)
        × ((handle show biz_err_msg base_failed h req res).threw ≡ false)
  handle-Runs h req res =
      let (e, w, runs, same) = handle_lem h req res in
      let (c, t) = conclude-kept e w in
      (
        e,
        w,
        runs,
        subst (IsAnswer e w) (sym same) (conclude-IsAnswer e w),
        ap (λ r. r.chunks) same ∙ c,
        ap (λ r. r.sent) same ∙ t,
        ap (λ r. r.threw) same,
      )
