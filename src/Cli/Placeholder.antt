-- ===== src/Cli/Placeholder.antt =====
-- The unit that `install` writes, and the paths that it names.
use scety.Prelude.{◌≡◌, refl, subst, sym, true, [], ◌∷◌, ◌++◌, take, drop, arith}
use scety.Text.{Text, codes, join}
use scety.Text.Replace.{replace, contains}
use scety.Cli.{main_scety_path}
use scety.Cli.Service.{lines, service_text}

contains-append_right : (p s t : Text) → contains p t ≡ true → contains p (s ++ t) ≡ true
unfolding contains
contains-append_right p [] t h = h
contains-append_right p (x ∷ s) t h = ground (arith, contains-append_right p s t h)

-- Before and behind the path of the program.
abbrev front : Text
front = join 10 (take 5 lines) ++ 10 ∷ codes "ExecStart="

abbrev back : Text
back = codes " run" ++ 10 ∷ join 10 (drop 6 lines)

service_text-split :
    (exe : Text)
    → service_text exe ≡ front ++ (replace (codes "{main_path}") main_scety_path exe ++ back)
unfolding service_text join
service_text-split exe = refl

back-placeholder : contains (codes "ReadWritePaths={main_path}/acme-cache") back ≡ true
unfolding contains join scety.Text.starts_with
back-placeholder = refl

-- Whatever the program's path, the unit that `install` writes still has the text
-- `ReadWritePaths={main_path}/acme-cache`: the placeholder is replaced in the program's path, and not
-- in the unit.
pub service_text-placeholder :
    (exe : Text)
    → contains (codes "ReadWritePaths={main_path}/acme-cache") (service_text exe) ≡ true
service_text-placeholder exe =
    let known = codes "ReadWritePaths={main_path}/acme-cache" in
    let path = replace (codes "{main_path}") main_scety_path exe in
    subst (λ t. contains known t ≡ true) (sym (service_text-split exe))
      (contains-append_right known front (path ++ back)
        (contains-append_right known path back back-placeholder))
