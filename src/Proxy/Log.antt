-- ===== src/Proxy/Log.antt =====
-- `sanitize_for_log` and the line of `log_request` in src/main.rs. A text is here the list of its
-- characters, and the time is an argument.
use docker_proxy.Common.{
  ℕ, zero, suc, ◌≤◌, ◌≡◌, ◌≢◌, Bool, false, ◌&&◌, ◌||◌, if◌then◌else◌, [], ◌∷◌, ◌++◌, Str, codes,
  arith, leb, ltb, ◌==◌, take, map, length, All, to_string,
}

-- `char::is_control`: the category Cc.
abbrev pub is_control : ℕ → Bool
is_control c = ltb c 32 || (leb 127 c && leb c 159)

abbrev pub sanitized : ℕ → ℕ
sanitized c = if is_control c || (c == b'"' || c == b'\\') then b'?' else c

unfoldable pub sanitize_for_log : Str → Str
sanitize_for_log s = map sanitized (take 256 s)

unfoldable pub log_line : Str → Str → Str → Str → Str → ℕ → Str
unfolding sanitize_for_log
log_line now peer method path user_agent status =
    codes "["
    ++ (now
        ++ (codes "] "
            ++ (peer
                ++ (codes " "
                    ++ (method
                        ++ (codes " "
                            ++ (sanitize_for_log path
                                ++ (codes " - "
                                    ++ (to_string status
                                        ++ (codes " - \""
                                            ++ (sanitize_for_log user_agent ++ codes "\"")))))))))))

-- No control character, no quote and no backslash.
abbrev pub IsHarmless : ℕ → Type 0
IsHarmless c = (is_control c ≡ false) × (c ≢ b'"') × (c ≢ b'\\')

sanitized-IsHarmless : (c : ℕ) → IsHarmless (sanitized c)
sanitized-IsHarmless c = ground arith

take-IsHarmless :
    (n : ℕ) (s : Str)
    → All IsHarmless (map sanitized (take n s)) × (length (map sanitized (take n s)) ≤ n)
take-IsHarmless zero s = (tt, ground arith)
take-IsHarmless (suc n) [] = (tt, ground arith)
take-IsHarmless (suc n) (c ∷ s) =
    let (h, k) = take-IsHarmless n s in ((sanitized-IsHarmless c, h), ground arith)

-- What is logged of a path or a user agent holds no control character, quote or backslash, and has
-- at most 256 characters.
pub sanitize_for_log-IsHarmless :
    (s : Str) → All IsHarmless (sanitize_for_log s) × (length (sanitize_for_log s) ≤ 256)
unfolding sanitize_for_log
sanitize_for_log-IsHarmless s = take-IsHarmless 256 s
