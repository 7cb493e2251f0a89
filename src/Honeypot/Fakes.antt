-- ===== src/Honeypot/Fakes.antt =====
-- The fake responses of pkg/honeypot/honeypot.go and the choice of one. What `crypto/rand.Int` gives
-- for a bound, and the time as a text, are parameters.
use gunnel.Prelude.{
  ℕ, zero, suc, List, [], ◌∷◌, ◌++◌, ◌||◌, Option, none, some, Bytes, codes, length, if◌then◌else◌,
}
use gunnel.Go.Slices.{Outcome, done, panicked}
use gunnel.Http.{Request}
use gunnel.Honeypot.Text.{contains}

pub record FakeResponse : Type 0 where
  pub body : Bytes
  pub content_type : Bytes

unfoldable pub get_admin_fakes : List FakeResponse
get_admin_fakes =
    record {
      content_type = codes "text/html";
      body =
          codes "<!DOCTYPE html>\n<html>\n<head><title>Admin Login</title></head>\n"
          ++ codes "<body>\n<form action=\"/admin/login\" method=\"post\">\n"
          ++ codes "<input type=\"text\" name=\"username\" placeholder=\"admin\">\n"
          ++ codes "<input type=\"password\" name=\"password\" placeholder=\"password\">\n"
          ++ codes "<button type=\"submit\">Login</button>\n</form>\n</body>\n</html>";
    }
    ∷ record {
      content_type = codes "application/json";
      body =
          codes
            "{\"status\":\"error\",\"message\":\"Invalid credentials\",\"attempts_remaining\":3}";
    }
    ∷ record {
      content_type = codes "text/html";
      body =
          codes "<!DOCTYPE html>\n<html>\n<head><title>phpMyAdmin</title></head>\n"
          ++ codes "<body>\n<h1>Welcome to phpMyAdmin</h1>\n<form method=\"post\">\n"
          ++ codes "Server: <input type=\"text\" name=\"pma_server\" value=\"localhost\"><br>"
          ++ codes "\nUsername: <input type=\"text\" name=\"pma_username\"><br>\n"
          ++ codes "Password: <input type=\"password\" name=\"pma_password\"><br>\n"
          ++ codes "<input type=\"submit\" value=\"Go\">\n</form>\n</body>\n</html>";
    }
    ∷ []

unfoldable pub get_api_fakes : List FakeResponse
get_api_fakes =
    record {
      content_type = codes "application/json";
      body =
          codes "{\"error\":\"rate_limit_exceeded\",\"retry_after\":3600,\"message\":\"Too "
          ++ codes "many requests\"}";
    }
    ∷ record {
      content_type = codes "application/json";
      body = codes "{\"status\":\"maintenance\",\"message\":\"API temporarily unavailable\"}";
    }
    ∷ record {
      content_type = codes "application/json";
      body = codes "{\"data\":[],\"meta\":{\"total\":0,\"page\":1,\"limit\":100}}";
    }
    ∷ record {
      content_type = codes "application/json";
      body =
          codes
            "{\"token\":\"eyJhbGciOiJIUzI1NiIsInR5cCI6IkpXVCJ9.fake.signature\",\"expires_in\":3600}";
    }
    ∷ []

unfoldable pub get_scanner_fakes : List FakeResponse
get_scanner_fakes =
    record {
      content_type = codes "text/plain";
      body = codes "SSH-2.0-OpenSSH_8.9p1 Ubuntu-3ubuntu0.1\n";
    }
    ∷ record {
      content_type = codes "text/html";
      body =
          codes "<html><body><h1>It works!</h1><p>This is the default web page for this "
          ++ codes "server.</p></body></html>";
    }
    ∷ record {
      content_type = codes "application/json";
      body =
          codes "{\"version\":\"1.0.0\",\"endpoints\":[\"/api/v1/users\",\"/api/v1/admin\","
          ++ codes "\"/api/v1/config\"]}";
    }
    ∷ record {
      content_type = codes "text/xml";
      body = codes "<?xml version=\"1.0\"?><error>Invalid request</error>";
    }
    ∷ []

unfoldable pub get_generic_fakes : Bytes → List FakeResponse
get_generic_fakes now_text =
    record {
      content_type = codes "text/html";
      body =
          codes "<!DOCTYPE html><html><head><title>Loading...</title></head>"
          ++ codes "<body><script>setTimeout(function(){location.reload()},5000)</script>"
          ++ codes "<h1>Please wait...</h1></body></html>";
    }
    ∷ record {
      content_type = codes "text/html";
      body =
          codes "<!DOCTYPE html><html><body><h1>404 Not Found</h1>"
          ++ codes "<p>The requested URL was not found on this server.</p></body></html>";
    }
    ∷ record {
      content_type = codes "application/json";
      body = codes "{\"status\":\"ok\",\"timestamp\":\"" ++ now_text ++ codes "\"}";
    }
    ∷ []

-- `getFakeResponses`
unfoldable pub get_fake_responses : Bytes → Bytes → Bytes → List FakeResponse
get_fake_responses now_text path user_agent =
    if contains path (codes "admin") || contains path (codes "login") || contains path (codes "wp-")
    then get_admin_fakes
    else if contains path (codes "api")
        || contains path (codes "v1")
        || contains path (codes "graphql")
    then get_api_fakes
    else if contains user_agent (codes "sqlmap")
        || contains user_agent (codes "nikto")
        || contains user_agent (codes "nmap")
    then get_scanner_fakes
    else get_generic_fakes now_text

-- `responses[i]`
unfoldable pub response_at : List FakeResponse → ℕ → Outcome FakeResponse
response_at [] i = panicked
response_at (r ∷ rs) zero = done r
response_at (r ∷ rs) (suc i) = response_at rs i

unfoldable pub choose : List FakeResponse → Option ℕ → Outcome FakeResponse
choose responses none = response_at responses 0
choose responses (some i) = response_at responses i

-- `GetFakeResponse`; `rand n` is `rand.Int` below `n`, or none for its error.
unfoldable pub get_fake_response : (ℕ → Option ℕ) → Bytes → Request → Outcome FakeResponse
get_fake_response rand now_text req =
    let responses = get_fake_responses now_text req.path (req.header (codes "User-Agent")) in
    choose responses (rand (length responses))
