-- ===== src/Tests/Utilities.antt =====
-- Prompts, files, calls that are kept apart, fields of messages, and the contexts of servers.
use sprintframework.Common.{ℕ, ◌≡◌, refl, arith}
use sprintframework.Common.{true, false, none, some, List, [], ◌∷◌}
use sprintframework.Common.{Bytes, codes, ◌==◌, nat_eq, bytes_eq, if◌then◌else◌, Result, ok, err}
use sprintframework.Common.Dict
use sprintframework.Common.Dict.{Dict}
use sprintframework.Strings.{trim_space}
use sprintframework.Utils.Prompt.{prompt, prompt_query, prompt_pem, quotes}
use sprintframework.Utils.Prompt.Endless.{Unmarked, Endless, prompts_never_return}
use sprintframework.Utils.Files.{file, Fs, Disk, copy_file}
use sprintframework.Utils.Files.Copies.{copy_file_lem}
use sprintframework.Core.Logging.{Arg, text, to_zap_fields}
use sprintframework.Core.Logging.Fields.{to_zap_fields_lem}
use sprintframework.Cmd.Servers.{ServerContext, Ending, panicked, do_with_servers, run_servers}
use sprintframework.Cmd.Servers.Closing.{Served, do_with_servers_lem, run_servers-unbound}

prompts_never_return_example :
    (trim_space quotes ≡ quotes
      → Unmarked quotes (codes "a" ∷ [])
      → prompt 9 (quotes ∷ codes "a" ∷ []) ≡ none)
    × (Unmarked (codes ";") (codes "a" ∷ []) → prompt_query 9 (codes "a" ∷ []) ≡ none)
    × (false ≡ true → Endless (codes "a" ∷ []) → prompt_pem 9 (quotes ∷ codes "a" ∷ []) ≡ none)
unfolding sprintframework.Strings.has_prefix
prompts_never_return_example = prompts_never_return 9 quotes (codes "a" ∷ [])

abbrev roomy : Disk
roomy = record { denied = λ a path. false; fits = λ path. none; umask = λ m. m }

abbrev one_file : Fs
one_file = (codes "a", file (record { content = codes "xyz"; mode = 1 })) ∷ []

copied_out :
    Dict.lookup (codes "b") (copy_file roomy (codes "a") (codes "b") 7 one_file).2
    ≡ some (file (record { content = codes "xyz"; mode = 7 }))
unfolding Dict.lookup copy_file sprintframework.Utils.Files.copy_raw bytes_eq
    sprintframework.Utils.Files.open_truncated Dict.insert sprintframework.Utils.Files.write_all
    sprintframework.Utils.Files.chmod
copied_out = refl

copy_file_lem_example :
    ((copy_file roomy (codes "a") (codes "a") 7 one_file).0 ≡ 0)
    × ((j : Bytes)
        → Dict.lookup j (copy_file roomy (codes "a") (codes "a") 7 one_file).2 ≡ (
            if j == codes "a"
            then some (file (record { content = []; mode = 7 }))
            else Dict.lookup j one_file))
unfolding Dict.lookup bytes_eq copy_file sprintframework.Utils.Files.copy_raw
    sprintframework.Utils.Files.open_truncated Dict.insert sprintframework.Utils.Files.write_all
    sprintframework.Utils.Files.chmod
copy_file_lem_example =
    copy_file_lem roomy (codes "a") (codes "a") 7 one_file
      (record { content = codes "xyz"; mode = 1 }) refl refl

abbrev args : List (Arg ℕ)
args = text (codes "k") ∷ text (codes "v") ∷ text (codes "w") ∷ []

abbrev pairs : List (Bytes × Arg ℕ)
pairs = (codes "k", text (codes "v")) ∷ (codes "l", text (codes "w")) ∷ []

to_zap_fields_lem_example :
    ((fields : List (Bytes × Arg ℕ)) × (to_zap_fields args ≡ some fields))
    × (to_zap_fields
          (text (codes "l") ∷ text (codes "w") ∷ text (codes "k") ∷ text (codes "v") ∷ [])
        ≡ some pairs)
to_zap_fields_lem_example = to_zap_fields_lem args pairs

abbrev two_contexts : List (Result Bytes (ServerContext ℕ))
two_contexts =
    ok (record { id = 1; beans = ok 7 ∷ []; close_error = none }) ∷ err (codes "broken") ∷ []

abbrev crash : List ℕ → Ending
crash servers = panicked (codes "crash")

do_with_servers_lem_example :
    ((do_with_servers two_contexts crash).1 ≡ 1 ∷ [])
    × ((do_with_servers two_contexts crash).0 ≡ [] → Served two_contexts crash)
do_with_servers_lem_example = do_with_servers_lem two_contexts crash

abbrev leaky_context : ServerContext ℕ
leaky_context = record { id = 3; beans = ok 7 ∷ ok 8 ∷ []; close_error = some (codes "leak") }

run_servers-unbound_example :
    run_servers {V = ℕ} (λ s. some (codes "in use")) (λ s. none) (ok leaky_context ∷ [])
    ≡ (codes "leak" ∷ [], 3 ∷ [])
unfolding sprintframework.Cmd.Servers.close_all sprintframework.Cmd.Servers.create_all
    sprintframework.Cmd.Servers.server_list
run_servers-unbound_example =
    run_servers-unbound {V = ℕ} (λ s. some (codes "in use")) (λ s. none) (ok leaky_context ∷ [])
      (leaky_context ∷ []) 7 (8 ∷ []) refl refl
      ((λ e. ground (arith, e)), ((λ e. ground (arith, e)), tt))
