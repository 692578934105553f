-- ===== src/Lib.antt =====
-- Arca Storage manages NFS storage on LVM, XFS and NFS-Ganesha. A request of the API or of an
-- OpenStack driver passes a validator, reaches a service, which runs the commands of LVM and XFS or
-- rewrites the exports of an SVM, and records the outcome in the JSON state files. The Manila driver
-- chooses the VLAN and the address of a new SVM by a network allocator that reads the SVMs that exist.
-- The Cinder driver mounts the export of an SVM and keeps its volumes and snapshots there as files.
--
-- The paths below stand under arca_storage/arca_storage/.
--   Base        texts, lists, integers and tests: what the source uses of Python's own types
--   Ipv4        the IPv4 classes of Python's `ipaddress`
--   Numerals    numbers that are printed and read again
--   Results     the exceptions (`Error`, `Result`), and Actions, a state with an exception
--   Validators  cli/lib/validators.py: `validate_name`, `validate_vlan`, `validate_ip_cidr`,
--               `validate_ipv4`, `infer_gateway_from_ip_cidr`
--   Standalone  openstack/manila/network_allocators/standalone.py: Pools is `_parse_ip_vlan_pools`
--               and `validate_config`, Used is `_get_used_ips_in_vlan`, Slots is
--               `_find_free_slot_in_pool`, Allocate is `_allocate_from_multi_pool`, `allocate` and
--               `deallocate`; the state is the parsed pools and the allocation counter
--   State       cli/lib/state.py: Table is the sorted table of one file, Files the operations on
--               svms.json, volumes.json and snapshots.json; Files/Maps is the abstract view of the
--               files as three finite maps
--   Ganesha     cli/lib/ganesha.py: Render is `render_config`, `reload` and `rollback_config`,
--               Exports is `add_export`, `remove_export`, `sync` and `list_exports`
--   Host        over a machine that runs commands: cli/lib/lvm.py (Lvm), cli/lib/xfs.py (Xfs),
--               cli/lib/netns.py (Netns), cli/lib/systemd.py (Systemd) and cli/lib/pacemaker.py
--               (Pacemaker); Logged is a machine that writes its commands down
--   Services    api/services: volume_service.py, snapshot_service.py, export_service.py,
--               svm_service.py and qos_service.py, on the state files and the machine
--   Cinder      openstack/cinder: Paths, Files and Mounts are utils.py; Driver, Setup, Qos, Volumes
--               and Snapshots are driver.py, whose state is the machine, the cache of SVMs and the
--               context; Files/Disk says what is relied on of the file system and of `cp`, and
--               Mounts/Again what of `mount`, whose table is Mounts/Table
--   Api         api/main.py: the endpoints over the services, and the statuses of exceptions
--   Manila      openstack/manila/driver.py over the client of the API: Svms is
--               `_allocate_per_project_svm`, Access the access rules, Shares the shares and their
--               snapshots; Client is the error handling of `_make_request` of
--               openstack/manila/client.py, Client/Timeouts its calls that time out, Client/Resources
--               `_extract_resource_id`, and Served its calls over the endpoints of Api, with what the
--               models of api/models.py ask of a volume and a snapshot; Neutron is
--               network_allocators/neutron.py, with its list of networks and its counter as state
-- A component's laws stand in the modules below it, and its examples in its module Tests.
--
-- State is passed explicitly. An action gives its answer or its exception with the state that is
-- left, so what was done before a raise stays done. Texts are lists of code points; `int`, `isdigit`,
-- `upper` and `lower` are those of ASCII text. Addresses are numbers below 2 ^ 32. The loops recurse
-- on a list or on the number of places left; `decimal` prints n with the fuel n + 1, which exceeds the
-- number of its digits. An allocation for a project makes three attempts, counted down.
--
-- Parameters stand for what is outside: the answers of `list_svms` and the draws of the random
-- generator (`Standalone.Allocate.Outside`), the template engine, the hash, the JSON of the metadata
-- and `systemctl reload` (`Ganesha.Outside`), `subprocess.run`, `os.path.exists` and `os.makedirs`
-- (`Host`), the files under /sys/fs/cgroup (`Services.Qos.FileSystem`), the API's client
-- (`SvmApi`, `ExportApi`, `ShareApi`) and its requests (`Client.Timeouts.Requests`), the network
-- allocator of the driver (`NetworkAllocator`), Neutron's client (`NeutronApi`), the machine, the
-- client and the database of the Cinder driver (`Cinder.Node`, `CinderApi`, `Backing`), the suffix
-- that `secrets` draws, the IPv6 networks of `ipaddress`, `str` of an exception, and the number of a
-- SHA-256 digest (an argument in Host/Netns). The time of a request is an argument too.
--
-- Not modelled: IPv6 pools, which the split at colons already refuses; exceptions of the file system;
-- the replacement of a file by a temporary one; log lines; the messages of exceptions, of which the
-- kind and the quoted texts are kept; `list_config_snapshots` and `read_config_snapshot_meta`;
-- the set-up of the Manila driver, the statistics of its pools, and the retries of its HTTP client;
-- the statistics and the HTTP client of the Cinder driver; the command line, the routing of the web
-- server and the CSI driver.
pub mod Base
pub mod Ipv4
pub mod Manila
pub mod Api
pub mod Cinder
pub mod Numerals
pub mod Results
pub mod Validators
pub mod Standalone
pub mod State
pub mod Ganesha
pub mod Actions
pub mod Host
pub mod Services
