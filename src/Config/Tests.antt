-- ===== src/Config/Tests.antt =====
-- Command lines.
use high_performance_http_se.Base.{
  ℤ, ◌≡◌, refl, List, [], ◌∷◌, ◌++◌, codes, equal, is_space, neg, inl, inr, arith,
}
use high_performance_http_se.Request.Number.{is_digit, digits_value, skip_space}
use high_performance_http_se.Config.Number.{stoi}
use high_performance_http_se.Config.{default, Parsed, flag_of, set_value, parse_args}
use high_performance_http_se.Config.Options.{
  Opt, arguments, set_all, parse_args-arguments, parse_args-stops,
}
use high_performance_http_se.Config.Ranges.{IsTyped, parse_args-IsTyped}

-- A port that does not fit 16 bits wraps around without a word.
port_wraps :
    parse_args (codes "--port" ∷ codes "70000" ∷ [])
    ≡ Parsed.returned (record default { port = 4464 })
unfolding parse_args flag_of equal set_value stoi digits_value is_digit skip_space is_space neg
port_wraps = refl

-- So does a negative one.
negative_port :
    parse_args (codes "--port" ∷ codes "-1" ∷ [])
    ≡ Parsed.returned (record default { port = 65535 })
unfolding parse_args flag_of equal set_value stoi digits_value is_digit skip_space is_space neg
negative_port = refl

-- A flag at the end that lacks its value is passed over.
port_missing : parse_args (codes "--port" ∷ []) ≡ Parsed.returned default
unfolding parse_args flag_of equal
port_missing = refl

abbrev some_options : List Opt
some_options =
    Opt.port 9090
    ∷ Opt.ignored (codes "fast")
    ∷ Opt.timeout (ℤ.negsuc 4)
    ∷ Opt.static_dir (codes "--help")
    ∷ Opt.no_keepalive
    ∷ Opt.port 80
    ∷ []

parse_args-arguments_example :
    parse_args (arguments some_options) ≡ Parsed.returned (set_all default some_options)
unfolding flag_of equal
parse_args-arguments_example =
    parse_args-arguments some_options
      (omega arith, (refl, (omega arith, (tt, (tt, (omega arith, tt))))))

parse_args-stops_example :
    (parse_args (arguments some_options ++ codes "--help" ∷ codes "me" ∷ []) ≡ Parsed.usage)
    × (parse_args (arguments some_options ++ codes "--workers" ∷ codes "many" ∷ codes "me" ∷ [])
        ≡ Parsed.thrown)
unfolding flag_of equal stoi is_digit skip_space is_space
parse_args-stops_example =
    parse_args-stops some_options (codes "--workers") (codes "many") (codes "me" ∷ [])
      (omega arith, (refl, (omega arith, (tt, (tt, (omega arith, tt)))))) refl (inr (inl refl))

parse_args-IsTyped_example : IsTyped (record default { port = 4464 })
parse_args-IsTyped_example =
    parse_args-IsTyped (codes "--port" ∷ codes "70000" ∷ []) (record default { port = 4464 })
      port_wraps
