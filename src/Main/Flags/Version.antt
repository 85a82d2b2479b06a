-- ===== src/Main/Flags/Version.antt =====
-- main.go and internal/options.go: what `-version` does, alone and with an override in the environment.
use crdmetrics.Prelude.{
  Result-cases, inl, inr, ℕ, ◌+◌, Bytes, codes, true, false, ◌&&◌, ◌≡◌, ◌≢◌, refl, sym, ap, ◌∙◌,
  none, some, List, [], ◌∷◌, ◌++◌, All, All-append, ok, ==_refl, bytes_eq, bytes_beq, arith,
  append_assoc, eqb,
}
use crdmetrics.Options.{
  Values, Flag, Env, bool_flag, default_flags, overrider_for_option_name, parse, override,
  visit_all,
}
use crdmetrics.Clientset.{RestTypes, RestLib}
use crdmetrics.Informers.{InformerLib}
use crdmetrics.Main.{MainOptions, MainLib, Outcome, exits, main, set_limits}
use crdmetrics.Main.Exit.{main-version}
use crdmetrics.Main.Flags.{n_flag, options_of, main_with_args}
use crdmetrics.Main.Flags.Count.{
  IsOther, version_flag, only_version, flags_but_version, n_flag-append, and_false, not_one,
  set_flag-at, n_flag-unnamed, visit_all-unset, text_of-version, text_of-last, visit_all-append,
  visit_all-IsOther,
}

module _ (types : RestTypes) (rest : RestLib types) (informers : InformerLib)
    (lib : MainLib types informers) (values : Values) (int_of : Bytes → ℕ) (env : Env)
    (registered : List Flag) where
  -- how many flags the environment overrides, if the command line sets none
  abbrev pub overridden : ℕ
  overridden = n_flag env [] (registered ++ default_flags env)

  module _ (unrelated : All IsOther registered)
      (parses : values.canonical bool_flag (codes "true") ≡ some (codes "true"))
      (kept : env (overrider_for_option_name (codes "version")) ≡ none) where
    version_unset : n_flag env [] (version_flag (codes "false") ∷ []) ≡ 0
    unfolding n_flag bytes_beq
    version_unset = rw kept refl

    version_counts : n_flag env only_version (version_flag (codes "true") ∷ []) ≡ 1
    unfolding n_flag
    version_counts = rw (==_refl (codes "version")) refl

    -- what `flag.Parse` makes of `-version`
    parse-version :
        (before : List Flag) × All IsOther before
        × (parse values only_version (registered ++ default_flags env)
            ≡ ok (before ++ version_flag (codes "true") ∷ []))
        × (overridden ≡ n_flag env [] before)
        × (registered ++ default_flags env ≡ before ++ version_flag (codes "false") ∷ [])
    unfolding parse n_flag
    parse-version =
        let (others, e, hs) = flags_but_version env in
        let before = registered ++ others in
        let v = version_flag (codes "false") in
        let other = All-append IsOther registered others unrelated hs in
        let flags =
          ap (λ (l : List Flag). registered ++ l) e
          ∙ sym (append_assoc registered others (v ∷ [])) in
        (
          before,
          other,
          rw flags (
              rw
                (set_flag-at values env before [] v (version_flag (codes "true")) (codes "true")
                  other (==_refl (codes "version")) (rw parses refl))
                refl),
          ap (n_flag env []) flags
              ∙ n_flag-append env [] before (v ∷ [])
              ∙ ap (λ (k : ℕ). n_flag env [] before + k) version_unset
              ∙ omega arith,
          flags,
        )

    version_passed :
        visit_all values env (version_flag (codes "true") ∷ [])
        ≡ ok (version_flag (codes "true") ∷ [])
    unfolding visit_all override bytes_beq
    version_passed = refl

    n_flag-parsed :
        (before : List Flag)
        → All IsOther before
        → n_flag env only_version (before ++ version_flag (codes "true") ∷ [])
          ≡ n_flag env [] before + 1
    n_flag-parsed before other =
        n_flag-append env only_version before (version_flag (codes "true") ∷ [])
        ∙ ap (λ (k : ℕ). k + n_flag env only_version (version_flag (codes "true") ∷ []))
            (n_flag-unnamed values env before other)
        ∙ ap (λ (k : ℕ). n_flag env [] before + k) version_counts

    -- the options as `main` reads them, if `flags` come of the parsed ones
    abbrev read_options : List Flag → List Flag → MainOptions
    read_options before flags =
        options_of int_of (n_flag env only_version (before ++ version_flag (codes "true") ∷ []))
          flags

    alone-quits :
        (before : List Flag)
        → All IsOther before
        → n_flag env [] before ≡ 0
        → ((read_options before (before ++ version_flag (codes "true") ∷ [])).version
            && eqb (read_options before (before ++ version_flag (codes "true") ∷ [])).n_flag 1)
          ≡ true
    unfolding options_of
    alone-quits before other none_set =
        rw
          (
            text_of-version values env before (version_flag (codes "true")) other
                (==_refl (codes "version")),
            n_flag-parsed before other,
            none_set,
            ==_refl (codes "true"),
          )
          refl

    overridden-stays :
        (before flags : List Flag)
        → All IsOther before
        → n_flag env [] before ≢ 0
        → ((read_options before flags).version && eqb (read_options before flags).n_flag 1) ≡ false
    unfolding options_of
    overridden-stays before flags other some_set = and_false _ _ (
        ap (λ (k : ℕ). eqb k 1) (n_flag-parsed before other)
        ∙ not_one (n_flag env [] before) some_set)

    unset_passed :
        visit_all values env (version_flag (codes "false") ∷ [])
        ≡ ok (version_flag (codes "false") ∷ [])
    unfolding visit_all override bytes_beq
    unset_passed = rw kept refl

    -- with the guard of `main` passed, its options but `version` and `n_flag` decide
    main-same :
        (bs : List Flag) (n n' : ℕ) (w : lib.World)
        → All IsOther bs
        → ((options_of int_of n (bs ++ version_flag (codes "true") ∷ [])).version && eqb n 1)
          ≡ false
        → main types rest informers lib w
            (options_of int_of n (bs ++ version_flag (codes "true") ∷ []))
          ≡ main types rest informers lib w
              (options_of int_of n' (bs ++ version_flag (codes "false") ∷ []))
    unfolding main set_limits options_of bytes_beq
    main-same bs n n' w others stays =
        let set = version_flag (codes "true") in
        let unset = version_flag (codes "false") in
        rw stays (
          rw (text_of-version values env bs unset others (==_refl (codes "version"))) (
            rw
              (
                text_of-last bs (codes "auto-gomaxprocs") set unset refl refl,
                text_of-last bs (codes "master") set unset refl refl,
                text_of-last bs (codes "kubeconfig") set unset refl refl,
                text_of-last bs (codes "workers") set unset refl refl,
                text_of-last bs (codes "self-host") set unset refl refl,
                text_of-last bs (codes "self-port") set unset refl refl,
                text_of-last bs (codes "main-host") set unset refl refl,
                text_of-last bs (codes "main-port") set unset refl refl,
              )
              refl))

    -- What `-version` alone on the command line does. If the environment overrides no option, the process
    -- ends with the exit code 0. If it overrides one, `main` does and leaves exactly what it does and
    -- leaves without the flag. (No other registered flag is called version, `true` is the text of a
    -- true value, and the environment does not override the flag itself.)
    pub main_with_args-version :
        (w : lib.World)
        → (overridden ≡ 0
            → (w' : lib.World) × (main_with_args types rest informers lib values int_of env
                  registered only_version w
                ≡ ok (w', exits 0)))
          × (overridden ≢ 0
              → main_with_args types rest informers lib values int_of env registered only_version w
                ≡ main_with_args types rest informers lib values int_of env registered [] w)
    unfolding main_with_args options_of
    main_with_args-version w =
        let (before, other, parsed, count, plain) = parse-version in
        (
          (λ none_set.
              let set = sym count ∙ none_set in
              let flags = before ++ version_flag (codes "true") ∷ [] in
              let visited =
                visit_all-unset values env before (version_flag (codes "true") ∷ []) set
                  version_passed in
              (
                (main types rest informers lib w (read_options before flags)).0,
                rw parsed (
                    rw visited (
                      ap
                        (λ (o : Outcome).
                          ok ((main types rest informers lib w (read_options before flags)).0, o))
                        (main-version types rest informers lib (read_options before flags) w
                          (alone-quits before other set)))),
              )),
          (λ some_set.
              unfold parse in
              rw parsed (
                rw plain (
                  rw
                    (
                      visit_all-append values env before (version_flag (codes "true") ∷ []),
                      visit_all-append values env before (version_flag (codes "false") ∷ []),
                      version_passed,
                      unset_passed,
                    )
                    (elim (Result-cases (visit_all values env before)) [
                      | inl (bs, e) ↦ rw e (
                          ap ok (
                            main-same bs _ _ w (visit_all-IsOther values env before bs e other) (
                              overridden-stays before (bs ++ version_flag (codes "true") ∷ []) other
                                (λ z. some_set (count ∙ z)))))
                      | inr (inl (x, e)) ↦ rw e refl
                      | inr (inr e) ↦ rw e refl
                    ])))),
        )
