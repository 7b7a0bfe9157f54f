-- ===== src/Build/Pod.antt =====
-- The pod of a build: `createBuildPod` of builder.go of services/build-service.
pub mod Locked
use obarena.Prelude.{String, Bool, true, false, pos, List, [], ◌∷◌, Option, none, some}
use obarena.Pods.{runtime_default, SecurityContext, Container, Volume, PodSpec, Pod, Named}

unfoldable pub security_context : SecurityContext
security_context = record {
  run_as_user = pos 65534;
  run_as_non_root = true;
  allow_privilege_escalation = false;
  read_only_root_filesystem = true;
  drop = "ALL" ∷ [];
  seccomp_profile = some runtime_default;
  app_armor_profile = some runtime_default;
}

abbrev pub workspace_and_tmp : Named
workspace_and_tmp = ("workspace", "/workspace") ∷ ("tmp", "/tmp") ∷ []

unfoldable pub download_source : String → Container
unfolding security_context
download_source source_url = record {
  name = "download-source";
  image = "alpine:3.23";
  command = "sh" ∷ "-c" ∷ [];
  args =
      "wget -q -O /workspace/source.tar.gz \"$SOURCE_URL\" && tar xzf /workspace/source.tar.gz -C /workspace && rm /workspace/source.tar.gz"
      ∷ [];
  working_dir = "";
  env = ("SOURCE_URL", source_url) ∷ [];
  ports = [];
  volume_mounts = workspace_and_tmp;
  security_context = some security_context;
  readiness_probe = none;
  resources = none;
}

unfoldable pub compile_source : String → String → Container
unfolding security_context
compile_source image build_cmd = record {
  name = "build";
  image = image;
  command = "sh" ∷ "-c" ∷ [];
  args = build_cmd ∷ [];
  working_dir = "/workspace";
  env = ("GOCACHE", "/tmp/go-build-cache") ∷ ("GOPATH", "/tmp/go-path") ∷ [];
  ports = [];
  volume_mounts = workspace_and_tmp;
  security_context = some security_context;
  readiness_probe = none;
  resources = some (record {
    cpu_request = "1";
    cpu_limit = "2";
    memory_request = "512Mi";
    memory_limit = "2Gi";
  });
}

unfoldable pub upload_binary : String → Container
unfolding security_context
upload_binary binary_upload_url = record {
  name = "upload-binary";
  image = "alpine/curl:8.9.1";
  command = "sh" ∷ "-c" ∷ [];
  args =
      "curl -sS -f -X PUT \\\n  -H \"Content-Type: application/octet-stream\" \\\n  -T /workspace/binary \\\n  --max-time 60 \\\n  \"$BINARY_UPLOAD_URL\" \\\n  && echo \"upload: ok\" || { echo \"upload failed\"; exit 1; }"
      ∷ [];
  working_dir = "";
  env = ("BINARY_UPLOAD_URL", binary_upload_url) ∷ [];
  ports = [];
  volume_mounts = workspace_and_tmp;
  security_context = some security_context;
  readiness_probe = none;
  resources = none;
}

-- Kubernetes wants a container that is not an init container.
unfoldable pub done_container : Container
unfolding security_context
done_container = record {
  name = "done";
  image = "alpine:3.23";
  command = "true" ∷ [];
  args = [];
  working_dir = "";
  env = [];
  ports = [];
  volume_mounts = [];
  security_context = some security_context;
  readiness_probe = none;
  resources = none;
}

unfoldable pub build_pod : String → String → String → String → String → Pod
unfolding download_source compile_source upload_binary done_container
build_pod name image build_cmd source_url binary_upload_url = record {
  name = name;
  namespace = "builds";
  labels = ("app", "build") ∷ ("role", "build-pod") ∷ ("app.kubernetes.io/name", "build") ∷ [];
  spec = record {
    automount_service_account_token = none;
    restart_policy = "Never";
    init_containers =
        download_source source_url
        ∷ compile_source image build_cmd
        ∷ upload_binary binary_upload_url
        ∷ [];
    containers = done_container ∷ [];
    volumes =
        record { name = "workspace"; size_limit = some "512Mi" }
        ∷ record { name = "tmp"; size_limit = none }
        ∷ [];
    node_selector = [];
    tolerations = [];
  };
}
