-- ===== src/Tests/Sealed.antt =====
-- A job on a file of three bytes, sealed in two chunks, and on the plain file.
use file_scanner.Base.{ℕ, ◌≡◌, refl, false, none, some, [], ◌∷◌, ok, err, arith}
use file_scanner.Base.Text.{strip, comma_list}
use file_scanner.Download.{Body, request, piece, finished, write_plaintext}
use file_scanner.Validation.{assert_scannable, host_allowed}
use file_scanner.Tasks.{Attempt, Response, accept, download}
use file_scanner.Tasks.Scan.{scan_task}
use file_scanner.Tasks.Secrecy.{with_params, scan_task-with_params}
use file_scanner.Tasks.Transparency.{sealed_params, scan_task-sealed}
use file_scanner.Tests.{floats}
use file_scanner.Tests.Files.{
  plain_sealer, zero_key, zeros_12, plain, fragment, fragment_key, in_two,
}
use file_scanner.Tests.Jobs.{deployment, args, met, world, broken_off}

abbrev response_of : Body → Response
response_of body = record { status_error = none; content_length = none; body = body }

abbrev in_three : Body
in_three = piece false (1 ∷ []) (piece false (2 ∷ []) (piece false (3 ∷ []) finished))

abbrev served_sealed : Attempt ℕ
served_sealed = record (met 1) { response = ok (response_of in_two) }

accepted_sealed :
    accept deployment (with_params args (some (sealed_params fragment "f" 2 plain))) served_sealed
    ≡ ok (response_of in_two)
unfolding accept assert_scannable host_allowed comma_list strip
accepted_sealed = refl

accepted_plain :
    accept deployment
      (with_params args none)
      (record served_sealed { response = ok (response_of in_three) })
    ≡ ok (response_of in_three)
unfolding accept assert_scannable host_allowed comma_list strip
accepted_plain = refl

copied : write_plaintext deployment.limits in_three ≡ ok (3, plain)
unfolding write_plaintext
copied = refl

scan_task-sealed_example :
    scan_task floats deployment
      (with_params args (some (sealed_params fragment "f" 2 plain)))
      served_sealed
      world
    ≡ scan_task floats deployment
        (with_params args none)
        (record served_sealed { response = ok (response_of in_three) })
        world
scan_task-sealed_example =
    scan_task-sealed floats deployment args plain_sealer zero_key (λ n. zeros_12) fragment "f" 2
      plain served_sealed world (ok (response_of in_three)) (response_of in_two)
      (response_of in_three) 3 (λ n. refl) fragment_key (omega arith) (omega arith) (omega arith)
      (omega arith) accepted_sealed (refl, (refl, tt)) refl accepted_plain copied refl

no_file :
    download deployment (with_params args (some (sealed_params fragment "f" 2 plain))) broken_off
    ≡ download deployment
        (with_params args none)
        (record broken_off { response = err (request "reset") })
unfolding download accept assert_scannable host_allowed comma_list strip
no_file = refl

scan_task-with_params_example :
    scan_task floats deployment
      (with_params args (some (sealed_params fragment "f" 2 plain)))
      broken_off
      world
    ≡ scan_task floats deployment
        (with_params args none)
        (record broken_off { response = err (request "reset") })
        world
scan_task-with_params_example =
    scan_task-with_params floats deployment args (some (sealed_params fragment "f" 2 plain)) none
      broken_off (err (request "reset")) world no_file refl
