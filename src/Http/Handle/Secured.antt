-- ===== src/Http/Handle/Secured.antt =====
-- The security headers, from hikyuu/httpd/HttpServer.cpp through a handler of HttpHandle.cpp.
use hku_rest.Prelude.{Bool, ℕ, ◌≡◌, refl, sym, subst, true, some, List, All}
use hku_rest.Prelude.Text.{Text, codes, text_eq}
use hku_rest.Connections.Ints.{ℤ}
use hku_rest.Router.{find_handler}
use hku_rest.Http.{Request, Response, set_header}
use hku_rest.Http.Headers.{header, IsSecured, set_if-IsSecured}
use hku_rest.Http.Serve.{Handler, Server, process_handle}
use hku_rest.Http.Serve.Answers.{KeepsHeaders, process_handle-IsSecured}
use hku_rest.Http.Handle.{
  Work, Ended, passed, exception, failed, biz_exception, Stage, HttpHandle, conclude, handle,
}
use hku_rest.Http.Handle.Stages.{Runs, all_passed, pass, stop, stages_of, handle_lem}

-- A stage that leaves the security headers as they are, however it ends.
abbrev pub KeepsSecured : Stage → Type 0
KeepsSecured stage =
    (is_https : Bool) (req : Request) (w : Work)
    → IsSecured is_https w.response
    → IsSecured is_https (stage req w).1.response

Runs-IsSecured :
    (is_https : Bool) {req : Request} {stages : List Stage} {w w' : Work} {e : Ended}
    → Runs req stages w e w'
    → All KeepsSecured stages
    → IsSecured is_https w.response
    → IsSecured is_https w'.response
Runs-IsSecured is_https all_passed k h = h
Runs-IsSecured is_https {req = req} {w = w} (pass e r) k h =
    Runs-IsSecured is_https r k.1
      (subst (λ x. IsSecured is_https x.1.response) e (k.0 is_https req w h))
Runs-IsSecured is_https {req = req} {w = w} (stop e n) k h =
    subst (λ x. IsSecured is_https x.1.response) e (k.0 is_https req w h)

module _ (show : ℤ → Text) (biz_err_msg : ℤ → Text) (base_failed : ℤ) where
  set_type-IsSecured :
      (is_https : Bool) (status : ℕ) (body : Text) (res : Response)
      → IsSecured is_https res
      → IsSecured is_https (
          set_header
            (codes "Content-Type")
            (codes "application/json; charset=UTF-8")
            (record res { status = status; body = body }))
  unfolding text_eq header
  set_type-IsSecured is_https status body res h =
      set_if-IsSecured is_https true (codes "Content-Type")
        (codes "application/json; charset=UTF-8") (record res { status = status; body = body })
        (refl, (refl, (refl, (refl, (refl, (refl, tt)))))) refl h

  conclude-IsSecured :
      (is_https : Bool) (e : Ended) (w : Work)
      → IsSecured is_https w.response
      → IsSecured is_https (conclude show biz_err_msg base_failed (e, w)).response
  conclude-IsSecured is_https passed w h = h
  conclude-IsSecured is_https exception w h = set_type-IsSecured is_https _ _ w.response h
  conclude-IsSecured is_https (failed code) w h = set_type-IsSecured is_https _ _ w.response h
  conclude-IsSecured is_https (biz_exception code) w h =
      set_type-IsSecured is_https _ _ w.response h

  handle-KeepsHeaders :
      (h : HttpHandle)
      → All KeepsSecured (stages_of h)
      → KeepsHeaders (handle show biz_err_msg base_failed h)
  handle-KeepsHeaders h k is_https req res s =
      let (e, w, runs, same) = handle_lem show biz_err_msg base_failed h req res in
      subst (λ x. IsSecured is_https x.response) (sym same)
        (conclude-IsSecured is_https e w (Runs-IsSecured is_https runs k s))

  -- Where every handler of the router is one of HttpHandle whose stages leave the security headers as
  -- they are, every response that `processHandle` prepares carries all six of them, and over HTTPS
  -- `Strict-Transport-Security`: also where a stage fails or throws, or the path is unknown.
  pub process_handle-Secured :
      (s : Server) (req : Request)
      → ((f : Handler)
          → find_handler req.method req.target s.router ≡ some f
          → (h : HttpHandle) × (f ≡ handle show biz_err_msg base_failed h)
            × All KeepsSecured (stages_of h))
      → IsSecured s.is_https (process_handle s req).response
  process_handle-Secured s req routes = process_handle-IsSecured s req (λ f e.
      let (h, same, k) = routes f e in subst KeepsHeaders (sym same) (handle-KeepsHeaders h k))
