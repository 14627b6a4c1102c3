-- ===== src/Http/Tests.antt =====
-- A browser that sends the login form.
use honeypots.Prelude.{ℕ, Bool, leb, ◌==◌, ◌&&◌, ◌||◌, refl, [], ◌∷◌, arith}
use honeypots.Python.Bytes.{Text, codes, bytes_eq}
use honeypots.Python.Query.RoundTrip.{IsSent, IsSafe}
use honeypots.Base.Samples.{server, peer}
use honeypots.Base.Login.{login_entry}
use honeypots.Helper.Request.{Request, client_ip}
use honeypots.Http.{takes_login, render}
use honeypots.Http.Login.{login_form, IsLogin, render-IsLogin}

abbrev name : Text
name = 0xe9 ∷ b'&' ∷ []

-- The characters that browsers leave: letters, digits, four signs and the space.
abbrev browser : ℕ → Bool
browser b =
    leb b'0' b && leb b b'9'
    || (leb b'A' b && leb b b'Z'
        || (leb b'a' b && leb b b'z'
            || (b == b'-' || (b == b'.' || (b == b'_' || (b == b'*' || b == 32))))))

browser-IsSafe : IsSafe browser
browser-IsSafe b e = ground (arith, e)

abbrev request : Request
request = record {
  method = codes "POST";
  uri = codes "/login.html";
  raw_headers = (codes "Host", codes "a" ∷ []) ∷ [];
  content = login_form browser name (codes "p w");
  client = peer;
}

name_IsSent : IsSent name
name_IsSent = (ground arith, λ e. ground (arith, e))

password_IsSent : IsSent (codes "p w")
password_IsSent = (ground arith, λ e. ground (arith, e))

render-IsLogin_example :
    IsLogin
      (login_entry server name (codes "p w") (codes "10.0.0.1") 4000)
      (render server (codes "nginx") request [])
unfolding client_ip
render-IsLogin_example =
    render-IsLogin server (codes "nginx") browser browser-IsSafe request name (codes "p w") [] refl
      refl (unfold takes_login bytes_eq in refl) name_IsSent password_IsSent
